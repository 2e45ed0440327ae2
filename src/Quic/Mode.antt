-- ===== src/Quic/Mode.antt =====
-- quic/quic.go: the transport modes, and quic/sender.go's configuration.
use rtp_over_quic.Base.{ℕ, Bool, String, str_eq, if◌then◌else◌}

pub data TransportMode : Type 0 where
  any dgram stream : TransportMode

unfoldable pub transport_mode_from_string : String → TransportMode
transport_mode_from_string s =
    if str_eq s "quic-dgram" then dgram else (if str_eq s "quic-stream" then stream else any)

-- The number of the constant.
abbrev pub mode_number : TransportMode → ℕ
mode_number any = 0
mode_number dgram = 1
mode_number stream = 2

-- An Algorithm of the package cc is a number.
pub record SenderConfig : Type 0 where
  pub remote_addr : String
  pub qlog_directory_name : String
  pub ssl_key_log_file_name : String
  pub cc : ℕ
  pub local_rfc8888 : Bool
  pub max_mtu : ℕ
  pub transport_mode : TransportMode

abbrev pub SenderOption : Type 0
SenderOption = SenderConfig → SenderConfig

-- The options of the package. None of them returns an error.
unfoldable pub remote_address : String → SenderOption
remote_address addr sc = record sc { remote_addr = addr }

unfoldable pub set_sender_qlog_dir_name : String → SenderOption
set_sender_qlog_dir_name dir sc = record sc { qlog_directory_name = dir }

unfoldable pub set_sender_ssl_key_log_file_name : String → SenderOption
set_sender_ssl_key_log_file_name file sc = record sc { ssl_key_log_file_name = file }

unfoldable pub set_sender_quic_congestion_control_algorithm : ℕ → SenderOption
set_sender_quic_congestion_control_algorithm algorithm sc = record sc { cc = algorithm }

unfoldable pub set_local_rfc8888 : Bool → SenderOption
set_local_rfc8888 enabled sc = record sc { local_rfc8888 = enabled }

unfoldable pub set_transport_mode : TransportMode → SenderOption
set_transport_mode mode sc = record sc { transport_mode = mode }
