-- ===== src/Tcp/Transport.antt =====
-- tcp/sender.go and tcp/receiver.go: the configurations, `Connect`, and the server's loop.
use rtp_over_quic.Base.{
  ℕ, Bool, true, false, String, List, [], ◌∷◌, Outcome, ok, ◌>>=◌, if◌then◌else◌,
}
use rtp_over_quic.Tcp.Sockets.{NetLib, Platform, connect_tcp}

pub record SenderConfig : Type 0 where
  pub cc : ℕ
  pub remote_addr : String

abbrev pub SenderOption : Type 0
SenderOption = SenderConfig → SenderConfig

unfoldable pub remote_address : String → SenderOption
remote_address addr sc = record sc { remote_addr = addr }

unfoldable set_tcp_congestion_control_algorithm : ℕ → SenderOption
set_tcp_congestion_control_algorithm algorithm sc = record sc { cc = algorithm }

-- None of the options returns an error.
unfoldable pub apply_sender : List SenderOption → SenderConfig → SenderConfig
apply_sender [] sc = sc
apply_sender (opt ∷ opts) sc = apply_sender opts (opt sc)

-- The zero value of the struct.
unfoldable pub new_sender : List SenderOption → SenderConfig
unfolding apply_sender
new_sender opts = apply_sender opts (record { cc = 0; remote_addr = "" })

-- `Connect`, up to the goroutines: the connection, and the interceptor.
unfoldable pub connect :
    {Interceptor : Type 0}
    → (n : NetLib) → Platform
    → Outcome Interceptor
    → SenderConfig
    → Outcome (n.Conn × Interceptor)
unfolding connect_tcp
connect n platform build c = do
  conn ← connect_tcp n platform c.remote_addr c.cc
  interceptor ← build
  ok (conn, interceptor)

pub record ServerConfig : Type 0 where
  pub local_addr : String

abbrev pub ServerOption : Type 0
ServerOption = ServerConfig → ServerConfig

unfoldable pub local_address : String → ServerOption
local_address addr sc = record sc { local_addr = addr }

unfoldable pub apply_server : List ServerOption → ServerConfig → ServerConfig
apply_server [] sc = sc
apply_server (opt ∷ opts) sc = apply_server opts (opt sc)

unfoldable pub new_server : List ServerOption → ServerConfig
unfolding apply_server
new_server opts = apply_server opts (record { local_addr = ":4242" })

-- A call of `AcceptTCP`: a connection, by a number, or an error.
pub data Accepted : Type 0 where
  connection : ℕ → Accepted
  broken : Accepted

-- The loop of `Start`: the connections that get a handler of their own, and whether it returned the
-- error.
unfoldable pub start : List Accepted → List ℕ × Bool
start [] = ([], false)
start (broken ∷ more) = ([], true)
start (connection c ∷ more) = let (handled, returned) = start more in (c ∷ handled, returned)

-- `handle`, on the packets of its channel in order: what the reader gets. Without a reader a packet
-- is dropped; an error of the reader is only logged.
unfoldable pub handle : Bool → List (List ℕ) → List (List ℕ)
handle has_reader [] = []
handle has_reader (p ∷ ps) =
    let rest = handle has_reader ps in if has_reader then p ∷ rest else rest
