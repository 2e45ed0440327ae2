-- ===== src/Tests/CmdRuns.antt =====
-- The command line's choices and the names of algorithms at concrete inputs.
use rtp_over_quic.Base.{ℕ, ◌+◌, none, some, ok, err, get_elem?}
use rtp_over_quic.Cc.{to_string, algorithm_from_string, reno}
use rtp_over_quic.Cmd.Transport.{udp}
use rtp_over_quic.Cmd.Connect.{
  remote_addr, local_addr, tcp_sender_config, quic_server_config, disables_cc, start-configurations,
}
use rtp_over_quic.Media.Config.{Config, default_config, payloader_for_codec}
use rtp_over_quic.Media.KeyFrame.{H264Lib, is_key_frame}
use rtp_over_quic.Media.Play.{
  PacketLib, Writer, Write, Input, buffer_of, ended, with_reliability, play,
}
use rtp_over_quic.Quic.Sender.{on_stream, media_write, choose}
use rtp_over_quic.Logging.{Os, exists, discards, file_closer, get_log_file}
use rtp_over_quic.Rtp.Registry.{
  dumps_sent_rtp, dumps_received_rtcp, twcc_header_extension, gcc_estimator,
}
use rtp_over_quic.Cmd.Setup.{SendFlags, run_gcc, setup_interceptor}
use rtp_over_quic.Cmd.Setup.Registries.{setup_interceptor-registry}
use rtp_over_quic.Quic.Mode.{transport_mode_from_string}
use rtp_over_quic.Tests.Packages.{small_rtp, thousandths}
use rtp_over_quic.Base.{◌≡◌, refl, true, false, List, [], ◌∷◌, String, ◌↔◌}
use rtp_over_quic.Cmd.Profiling.{System}
use rtp_over_quic.Cmd.Transport.{Flags, quic_sender_config, use_gst_packetizer}

abbrev fine_system : System
fine_system = record { create_fails = λ file. false; cpu_fails = false }

abbrev two_profiles : List (String × String)
two_profiles = ("heap", "h.out") ∷ ("mutex", "m.out") ∷ []

abbrev pub prio_flags : Flags
prio_flags = record {
  transport = "quic-prio";
  addr = ":4242";
  quic_cc = "none";
  tcp_cong_alg = "reno";
  qlog_dir = "";
  key_log_file = "";
  local_rfc8888 = false;
}

-- A packetizer that makes one packet of each frame, with the next number as its header.
abbrev pub numbering : PacketLib small_rtp
numbering = record {
  Packetizer = ℕ;
  new_packetizer = λ pt ssrc payloader. 0;
  packetize = λ seq mtu bytes samples. (seq + 1, record { header = seq; payload = bytes } ∷ []);
  unmarshal = λ bytes. err "short";
}

abbrev pub no_units : H264Lib
no_units = record { opens = λ bytes. false; calls = λ bytes. []; coded_slice_idr = 5 }

abbrev accepting : Writer small_rtp
accepting before w = none

abbrev pub vp8_config : Config
vp8_config = record default_config { codec = "vp8" }

-- A key frame of one byte.
abbrev pub key_frame : List Input
key_frame = buffer_of (record { bytes = 2 ∷ []; duration = 40 }) ∷ ended ∷ []

abbrev pub first_write : Write small_rtp
first_write = record {
  packet = record { header = 0; payload = 2 ∷ [] };
  attributes = some (with_reliability true);
}

first_write_lem :
    get_elem?
      (play thousandths no_units numbering accepting vp8_config
        (use_gst_packetizer prio_flags.transport)
        key_frame).0
      0
    ≡ some first_write
unfolding play use_gst_packetizer is_key_frame payloader_for_codec
first_write_lem = refl

pub first_write_sent :
    media_write small_rtp
      (quic_sender_config prio_flags)
      (5 ∷ [])
      0
      0
      (2 ∷ [])
      (some (with_reliability true))
    ≡ ok (on_stream (5 ∷ 0 ∷ 0 ∷ 2 ∷ []))
unfolding media_write quic_sender_config transport_mode_from_string choose
first_write_sent = refl

abbrev fine_os : Os
fine_os = record {
  create = λ file. none;
  stat = λ file. exists;
  make_all = λ file. none;
  open_truncated = λ file. none;
  trim_right = λ path. path;
}

abbrev gcc_flags : SendFlags
gcc_flags = record {
  transport = "quic";
  source = "videotestsrc";
  codec = "h264";
  rtp_dump_file = "rtp.log";
  rtcp_dump_file = "";
  cc_dump = "cc.log";
  rtp_cc = "gcc";
  initial_target_bitrate = 100000;
}

-- With gcc the goroutine is the one that panics.
setup_interceptor-registry_example :
    let (s, registry) = setup_interceptor fine_os (λ factory. none) gcc_flags in
    (registry
      ≡ ok (
          dumps_sent_rtp (file_closer "rtp.log")
          ∷ dumps_received_rtcp discards
          ∷ twcc_header_extension
          ∷ gcc_estimator 100_000 100_000
          ∷ []))
    × (s.bwe ≡ some "cc.log")
    × (s.routines ≡ run_gcc ∷ [])
unfolding get_log_file
setup_interceptor-registry_example =
    setup_interceptor-registry fine_os (λ factory. none) gcc_flags (file_closer "rtp.log") discards
      (λ factory. refl) refl refl

-- The receiver with --transport udp, and the sender with tcp.
start-configurations_example :
    (remote_addr prio_flags udp ≡ ":4242")
    × (local_addr prio_flags udp ≡ ":4242")
    × (to_string (tcp_sender_config prio_flags).cc ≡ "reno")
    × (disables_cc (quic_sender_config prio_flags).cc ≡ false
        ↔ algorithm_from_string prio_flags.quic_cc ≡ reno)
    × (disables_cc (quic_server_config prio_flags).cc ≡ false)
start-configurations_example = start-configurations prio_flags udp
