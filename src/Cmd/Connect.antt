-- ===== src/Cmd/Connect.antt =====
-- cmd/send.go and cmd/receive.go: how the flags configure the transports of the sender and of the
-- receiver.
use rtp_over_quic.Base.{ℕ, ◌≡◌, refl, ◌↔◌, Bool, false, String, [], ◌∷◌, arith}
use rtp_over_quic.Cc.{to_string, reno, algorithm_from_string}
use rtp_over_quic.Quic.Connection as Quic
use rtp_over_quic.Tcp.Transport as Tcp
use rtp_over_quic.Udp.Transport as Udp
use rtp_over_quic.Cmd.Transport.{Flags, Kind, quic, udp, tcp, quic_sender_config}

-- `startTCPSender`, up to `Connect`.
unfoldable pub tcp_sender_config : Flags → Tcp.SenderConfig
unfolding Tcp.new_sender Tcp.remote_address
tcp_sender_config f = Tcp.new_sender (Tcp.remote_address f.addr ∷ [])

-- `startUDPSender`.
unfoldable udp_sender_config : Flags → Udp.SenderConfig
unfolding Udp.new_sender Udp.remote_address
udp_sender_config f = Udp.new_sender (Udp.remote_address f.addr ∷ [])

-- The receiver's `startQUIC`, `startTCP` and `startUDP`, up to the handlers.
unfoldable pub quic_server_config : Flags → Quic.ServerConfig
unfolding Quic.new_server Quic.local_address Quic.set_server_qlog_dir_name
    Quic.set_server_ssl_key_log_file_name
quic_server_config f = Quic.new_server (
    Quic.local_address f.addr
    ∷ Quic.set_server_qlog_dir_name f.qlog_dir
    ∷ Quic.set_server_ssl_key_log_file_name f.key_log_file
    ∷ [])

unfoldable tcp_server_config : Flags → Tcp.ServerConfig
unfolding Tcp.new_server Tcp.local_address
tcp_server_config f = Tcp.new_server (Tcp.local_address f.addr ∷ [])

unfoldable udp_server_config : Flags → Udp.ServerConfig
unfolding Udp.new_server
udp_server_config f = Udp.new_server []

-- The address of the server that the receiver's `start` makes.
unfoldable pub local_addr : Flags → Kind → String
unfolding quic_server_config tcp_server_config udp_server_config
local_addr f quic = (quic_server_config f).local_addr
local_addr f tcp = (tcp_server_config f).local_addr
local_addr f udp = (udp_server_config f).local_addr

-- The address that the sender's factory connects to.
unfoldable pub remote_addr : Flags → Kind → String
unfolding tcp_sender_config udp_sender_config
remote_addr f quic = (quic_sender_config f).remote_addr
remote_addr f tcp = (tcp_sender_config f).remote_addr
remote_addr f udp = (udp_sender_config f).remote_addr

-- The congestion control of QUIC at both ends, and of the sender's TCP connection.
abbrev pub disables_cc : ℕ → Bool
disables_cc cc = (Quic.conf_of [] cc).disable_cc

-- Where the sender connects to, and where the receiver listens.
abbrev listens_at : Flags → Kind → String
listens_at f udp = ":4242"
listens_at f _ = f.addr

-- For every value of the flags: the sender connects to --addr, but the receiver listens there only
-- for QUIC and TCP, and at :4242 for UDP; TCP is asked for the congestion control reno, whatever
-- --tcp-congestion says; QUIC's own congestion control is on in the sender exactly if --quic-cc is
-- read as reno, and always in the receiver.
pub start-configurations :
    (f : Flags) (k : Kind)
    → (remote_addr f k ≡ f.addr)
      × (local_addr f k ≡ listens_at f k)
      × (to_string (tcp_sender_config f).cc ≡ "reno")
      × (disables_cc (quic_sender_config f).cc ≡ false ↔ algorithm_from_string f.quic_cc ≡ reno)
      × (disables_cc (quic_server_config f).cc ≡ false)
unfolding remote_addr local_addr tcp_sender_config udp_sender_config quic_server_config
    tcp_server_config udp_server_config quic_sender_config to_string
start-configurations f quic = (refl, refl, refl, ground arith, refl)
start-configurations f tcp = (refl, refl, refl, ground arith, refl)
start-configurations f udp = (refl, refl, refl, ground arith, refl)
