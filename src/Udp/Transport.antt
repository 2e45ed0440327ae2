-- ===== src/Udp/Transport.antt =====
-- udp/sender.go and udp/receiver.go: the configurations, `Connect`, the writer of `NewMediaStream`,
-- and `WriteRTCP`. The net package is a parameter.
pub mod Trip
use rtp_over_quic.Base.{ℕ, String, List, [], ◌∷◌, ◌++◌, Outcome, ok, err, panic, ◌>>=◌}
use rtp_over_quic.Pion.{RtpLib}

pub record SenderConfig : Type 0 where
  pub remote_addr : String

abbrev pub SenderOption : Type 0
SenderOption = SenderConfig → SenderConfig

unfoldable pub remote_address : String → SenderOption
remote_address addr sc = record sc { remote_addr = addr }

-- None of the options returns an error.
unfoldable pub apply_sender : List SenderOption → SenderConfig → SenderConfig
apply_sender [] sc = sc
apply_sender (opt ∷ opts) sc = apply_sender opts (opt sc)

unfoldable pub new_sender : List SenderOption → SenderConfig
unfolding apply_sender
new_sender opts = apply_sender opts (record { remote_addr = "" })

-- `Connect`, up to the goroutines: the connection for the address, and the interceptor.
unfoldable pub connect :
    {Conn Interceptor : Type 0}
    → (String → Outcome Conn)
    → Outcome Interceptor
    → SenderConfig
    → Outcome (Conn × Interceptor)
connect connect_udp build c = do
  conn ← connect_udp c.remote_addr
  interceptor ← build
  ok (conn, interceptor)

-- The datagram that the writer of `NewMediaStream` sends.
unfoldable pub media_write : (r : RtpLib) → r.Header → List ℕ → Outcome (List ℕ)
media_write r header payload = do header_buf ← r.marshal header; ok (header_buf ++ payload)

pub record ServerConfig : Type 0 where
  pub local_addr : String

abbrev pub ServerOption : Type 0
ServerOption = ServerConfig → ServerConfig

unfoldable pub apply_server : List ServerOption → ServerConfig → ServerConfig
apply_server [] sc = sc
apply_server (opt ∷ opts) sc = apply_server opts (opt sc)

unfoldable pub new_server : List ServerOption → ServerConfig
unfolding apply_server
new_server opts = apply_server opts (record { local_addr = ":4242" })

-- `Handler.WriteRTCP`, on the result of `rtcp.Marshal`: the datagram for the handler's address.
unfoldable pub write_rtcp : ℕ → Outcome (List ℕ) → Outcome (ℕ × List ℕ)
write_rtcp addr marshalled = do buf ← marshalled; ok (addr, buf)
