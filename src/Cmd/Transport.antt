-- ===== src/Cmd/Transport.antt =====
-- cmd/send.go and cmd/receive.go: what the flags make of the transports.
use rtp_over_quic.Base.{
  ◌≡◌, refl, Bool, false, not, [], ◌∷◌, Option, none, some, if◌then◌else◌, ◌||◌, String, str_eq,
  str_eq-other, eq_iff, arith, Bool-cases, inl, inr, ◌↔◌,
}
use rtp_over_quic.Cc.{algorithm_from_string}
use rtp_over_quic.Quic.Mode.{
  dgram, stream, SenderConfig, transport_mode_from_string, remote_address, set_sender_qlog_dir_name,
  set_sender_ssl_key_log_file_name, set_sender_quic_congestion_control_algorithm, set_local_rfc8888,
  set_transport_mode,
}
use rtp_over_quic.Quic.Sender.{new_sender_config, default_config}

-- The package-level flags of root.go and send.go that the transports read.
pub record Flags : Type 0 where
  pub transport : String
  pub addr : String
  pub quic_cc : String
  pub tcp_cong_alg : String
  pub qlog_dir : String
  pub key_log_file : String
  pub local_rfc8888 : Bool

-- The cases of the `switch` in `transportFactory` and in the receiver's `start`.
pub data Kind : Type 0 where
  quic udp tcp : Kind

-- `none`: the error `errInvalidTransport`.
unfoldable pub kind_of : String → Option Kind
kind_of t =
    if str_eq t "quic"
      || (str_eq t "quic-dgram" || (str_eq t "quic-stream" || str_eq t "quic-prio"))
    then some quic
    else (if str_eq t "udp" then some udp else (if str_eq t "tcp" then some tcp else none))

-- `startQUICSender`, up to `Connect`.
unfoldable pub quic_sender_config : Flags → SenderConfig
unfolding new_sender_config default_config set_transport_mode remote_address
    set_sender_qlog_dir_name set_sender_ssl_key_log_file_name
    set_sender_quic_congestion_control_algorithm set_local_rfc8888
quic_sender_config f =
    new_sender_config
      (set_transport_mode (transport_mode_from_string f.transport)
        ∷ remote_address f.addr
        ∷ set_sender_qlog_dir_name f.qlog_dir
        ∷ set_sender_ssl_key_log_file_name f.key_log_file
        ∷ set_sender_quic_congestion_control_algorithm (algorithm_from_string f.quic_cc)
        ∷ set_local_rfc8888 f.local_rfc8888
        ∷ [])
      default_config

-- `useGstPacketizer`, as `startMedia` passes it to `NewGstreamerSource`.
unfoldable pub use_gst_packetizer : String → Bool
use_gst_packetizer t = not (str_eq t "quic-prio")

dgram_iff : (t : String) → transport_mode_from_string t ≡ dgram ↔ t ≡ "quic-dgram"
unfolding transport_mode_from_string
dgram_iff t = ground (arith, eq_iff t "quic-dgram", eq_iff t "quic-stream")

stream_iff : (t : String) → transport_mode_from_string t ≡ stream ↔ t ≡ "quic-stream"
unfolding transport_mode_from_string
stream_iff t = elim (Bool-cases (str_eq t "quic-dgram")) [
  | inl eq ↦
      let other = str_eq-other t "quic-dgram" "quic-stream" refl eq in
      rw eq (ground (arith, eq_iff t "quic-stream"))
  | inr ne ↦ rw ne (ground (arith, eq_iff t "quic-dgram", eq_iff t "quic-stream"))
]

prio_iff : (t : String) → use_gst_packetizer t ≡ false ↔ t ≡ "quic-prio"
unfolding use_gst_packetizer
prio_iff t = ground (arith, eq_iff t "quic-prio")

-- The four transports over QUIC differ in the mode: quic-dgram sends datagrams only, quic-stream
-- streams only; quic and quic-prio leave the choice to the writer, and of these two only quic-prio
-- packetizes in the program, so that packets have a reliability. Everything else of the
-- configuration is the flags', and the largest packet for a datagram has 1300 bytes.
quic_sender_config-mode :
    (f : Flags)
    → ((quic_sender_config f).transport_mode ≡ dgram ↔ f.transport ≡ "quic-dgram")
      × ((quic_sender_config f).transport_mode ≡ stream ↔ f.transport ≡ "quic-stream")
      × (use_gst_packetizer f.transport ≡ false ↔ f.transport ≡ "quic-prio")
      × ((quic_sender_config f).max_mtu ≡ 1300)
      × ((quic_sender_config f).remote_addr ≡ f.addr)
      × ((quic_sender_config f).local_rfc8888 ≡ f.local_rfc8888)
unfolding quic_sender_config use_gst_packetizer transport_mode_from_string
quic_sender_config-mode f =
    (dgram_iff f.transport, stream_iff f.transport, prio_iff f.transport, refl, refl, refl)
