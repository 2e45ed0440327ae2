-- ===== src/Quic/Connection.antt =====
-- quic/sender.go, `Connect`, quic/quic.go, `listen`, and quic/receiver.go, `NewServer`, `Start` and
-- `acceptStreams`: how connections are configured, made and accepted. quic-go is a parameter.
pub mod Accepting
use rtp_over_quic.Base.{
  ℕ, ◌+◌, ◌^◌, Bool, true, false, not, ◌==◌, String, List, [], ◌∷◌, ◌++◌, Option, none, some,
  Outcome, ok, err, panic, ◌>>=◌, if◌then◌else◌,
}
use rtp_over_quic.Logging.{Os, QlogTracer, get_qlog_tracer, get_key_logger}
use rtp_over_quic.Quic.Mode.{SenderConfig}
use rtp_over_quic.Quic.Receiver.{RecvError, is_final}
use rtp_over_quic.Cc.{reno}

-- A tracer of the connection: the RTT tracer of the sender, or that of the qlogs.
pub data Tracer : Type 0 where
  rtt_tracer : Tracer
  qlogs : QlogTracer → Tracer

-- The fields of quic.Config that are set; the timeout is in seconds.
pub record QuicConf : Type 0 where
  pub enable_datagrams : Bool
  pub handshake_idle_timeout : ℕ
  pub tracers : List Tracer
  pub disable_cc : Bool
  pub max_incoming_streams : ℕ
  pub max_incoming_uni_streams : ℕ

abbrev pub conf_of : List Tracer → ℕ → QuicConf
conf_of tracers cc = record {
  enable_datagrams = true;
  handshake_idle_timeout = 15;
  tracers = tracers;
  disable_cc = not (cc == reno);
  max_incoming_streams = 2 ^ 60;
  max_incoming_uni_streams = 2 ^ 60;
}

abbrev qlog_tracers : Option QlogTracer → List Tracer
qlog_tracers none = []
qlog_tracers (some tracer) = qlogs tracer ∷ []

-- `Connect`, up to the goroutines: `dial` for the address, the key log and the configuration, and
-- `build` for the interceptor registry. The connection and the interceptor.
unfoldable pub connect :
    {Conn Interceptor : Type 0}
    → Os
    → (String → Option String → QuicConf → Outcome Conn)
    → Outcome Interceptor
    → SenderConfig
    → Outcome (Conn × Interceptor)
connect os dial build c = do
  qlog_writer ← get_qlog_tracer os c.qlog_directory_name
  key_logger ← get_key_logger os c.ssl_key_log_file_name
  conn ← dial c.remote_addr key_logger (conf_of (rtt_tracer ∷ qlog_tracers qlog_writer) c.cc)
  interceptor ← build
  ok (conn, interceptor)

pub record ServerConfig : Type 0 where
  pub local_addr : String
  pub cc : ℕ
  pub qlog_directory_name : String
  pub ssl_key_log_file_name : String

abbrev pub ServerOption : Type 0
ServerOption = ServerConfig → ServerConfig

unfoldable pub local_address : String → ServerOption
local_address addr sc = record sc { local_addr = addr }

unfoldable pub set_server_qlog_dir_name : String → ServerOption
set_server_qlog_dir_name dir sc = record sc { qlog_directory_name = dir }

unfoldable pub set_server_ssl_key_log_file_name : String → ServerOption
set_server_ssl_key_log_file_name file sc = record sc { ssl_key_log_file_name = file }

unfoldable set_server_quic_congestion_control_algorithm : ℕ → ServerOption
set_server_quic_congestion_control_algorithm algorithm sc = record sc { cc = algorithm }

-- None of the options returns an error.
unfoldable pub apply_all : List ServerOption → ServerConfig → ServerConfig
apply_all [] sc = sc
apply_all (opt ∷ opts) sc = apply_all opts (opt sc)

unfoldable pub new_server : List ServerOption → ServerConfig
unfolding apply_all
new_server opts =
    apply_all opts
      (record { local_addr = ""; cc = 0; qlog_directory_name = ""; ssl_key_log_file_name = "" })

-- `listen`, with quic-go's `ListenAddr` as an argument.
unfoldable listen :
    {Listener : Type 0}
    → Os
    → (String → Option String → QuicConf → Outcome Listener)
    → ServerConfig
    → Outcome Listener
listen os listen_addr c = do
  qlog_writer ← get_qlog_tracer os c.qlog_directory_name
  key_logger ← get_key_logger os c.ssl_key_log_file_name
  listen_addr c.local_addr key_logger (conf_of (qlog_tracers qlog_writer) c.cc)

-- What a call of `Accept` gives: a connection, by a number, `context.Canceled`, or another error.
pub data Accepted : Type 0 where
  connection : ℕ → Accepted
  canceled broken : Accepted

-- How `Start` stands.
pub data Exit : Type 0 where
  accepting returns_nil returns_error : Exit

-- The loop of `Start`: the connections that get a handler of their own, in order.
unfoldable pub start : List Accepted → List ℕ × Exit
start [] = ([], accepting)
start (canceled ∷ more) = ([], returns_nil)
start (broken ∷ more) = ([], returns_error)
start (connection c ∷ more) = let (handled, exit) = start more in (c ∷ handled, exit)

-- A call of `AcceptUniStream`: a stream, or an error.
pub data StreamEvent : Type 0 where
  stream : ℕ → StreamEvent
  fails : RecvError → StreamEvent

-- `acceptStreams`: the streams that get a goroutine of their own, and whether the loop returned.
unfoldable pub accept_streams : List StreamEvent → List ℕ × Bool
accept_streams [] = ([], false)
accept_streams (fails e ∷ more) = if is_final e then ([], true) else accept_streams more
accept_streams (stream s ∷ more) =
    let (streams, returned) = accept_streams more in (s ∷ streams, returned)
