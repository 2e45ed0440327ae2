-- ===== src/Cmd/Setup.antt =====
-- cmd/send.go, `setupInterceptor` and `startMedia`, and cmd/receive.go, `newReceiverController`:
-- what the flags make of the interceptors and the media options.
pub mod Registries
use rtp_over_quic.Base.{
  ℕ, ◌≡◌, refl, Bool, true, false, ◌||◌, not, String, str_eq, if◌then◌else◌, List, [], ◌∷◌, ◌++◌,
  Option, none, some, Outcome, ok, err, panic, ◌>>=◌, ◌==◌,
}
use rtp_over_quic.Base.Int.{ℤ, signed64}
use rtp_over_quic.Cc.{to_string, scream, gcc}
use rtp_over_quic.Logging.{Os}
use rtp_over_quic.Rtp.Registry.{
  Registry, RegistryOption, Constructors, new, register_sender_packet_log,
  register_receiver_packet_log, register_scream, register_gcc, register_twcc_header_extension,
  register_twcc, register_rfc8888, register_rfc8888_pion,
}
use rtp_over_quic.Media.Config.{ConfigOption, set_codec, initial_target_bitrate}
use rtp_over_quic.Cmd.Feedback.{get_rtcp, rtcp_rfc8888, rtcp_rfc8888_pion, rtcp_twcc}
use rtp_over_quic.Cmd.Transport.{use_gst_packetizer}

-- The flags of root.go and send.go that decide it.
pub record SendFlags : Type 0 where
  pub transport : String
  pub source : String
  pub codec : String
  pub rtp_dump_file : String
  pub rtcp_dump_file : String
  pub cc_dump : String
  pub rtp_cc : String
  pub initial_target_bitrate : ℕ

-- A goroutine that `setupInterceptor` starts: the estimator's `RunSCReAM`, or its `RunGCC`, which
-- is `panic("TODO")` and so ends the program.
pub data Routine : Type 0 where
  run_scream run_gcc : Routine

-- The estimators that were made, by their log files, the last one being the controller's `bwe`; the
-- goroutines; and the options of the registry.
pub record Setup : Type 0 where
  pub bwe : Option String
  pub routines : List Routine
  pub options : List RegistryOption

abbrev if_scream : Constructors → SendFlags → Setup → Setup
if_scream fails fl s =
    if str_eq fl.rtp_cc (to_string scream)
    then record {
      bwe = some fl.cc_dump;
      routines = s.routines ++ run_scream ∷ [];
      options = s.options ++ register_scream fails (signed64 fl.initial_target_bitrate) ∷ [];
    }
    else s

abbrev if_gcc : Constructors → SendFlags → Setup → Setup
if_gcc fails fl s =
    if str_eq fl.rtp_cc (to_string gcc)
    then record {
      bwe = some fl.cc_dump;
      routines = s.routines ++ run_gcc ∷ [];
      options = s.options ++ register_twcc_header_extension fails ∷ register_gcc fails ∷ [];
    }
    else s

-- `setupInterceptor`: the controller and the goroutines, and the registry.
unfoldable pub setup_interceptor : Os → Constructors → SendFlags → Setup × Outcome Registry
setup_interceptor os fails fl =
    let log = register_sender_packet_log fails os fl.rtp_dump_file fl.rtcp_dump_file in
    let s =
      if_gcc fails fl
        (if_scream fails fl (record { bwe = none; routines = []; options = log ∷ [] })) in
    (s, new s.options)

-- The media source of `startMedia`, with its options: syncodec, or GStreamer with its source and
-- its packetizer.
data MediaSource : Type 0 where
  syncodec : List ConfigOption → MediaSource
  gstreamer : String → Bool → List ConfigOption → MediaSource

unfoldable media_source : SendFlags → MediaSource
media_source fl =
    let options = set_codec fl.codec ∷ initial_target_bitrate fl.initial_target_bitrate ∷ [] in
    if str_eq fl.source "syncodec"
    then syncodec options
    else gstreamer fl.source (use_gst_packetizer fl.transport) options

pub record ReceiveFlags : Type 0 where
  pub codec : String
  pub rtp_dump_file : String
  pub rtcp_dump_file : String
  pub rtcp_feedback : String

-- `receiverController`.
pub record ReceiverController : Type 0 where
  pub media_options : List ConfigOption
  pub rtp_options : List RegistryOption

-- The `switch` over the feedback.
unfoldable pub feedback_options : Constructors → ℕ → List RegistryOption
feedback_options fails feedback =
    if feedback == rtcp_rfc8888
    then register_rfc8888 fails ∷ []
    else (if feedback == rtcp_rfc8888_pion
        then register_rfc8888_pion fails ∷ []
        else (if feedback == rtcp_twcc then register_twcc fails ∷ [] else []))

unfoldable pub new_receiver_controller : Os → Constructors → ReceiveFlags → ReceiverController
unfolding feedback_options get_rtcp
new_receiver_controller os fails fl = record {
  media_options = set_codec fl.codec ∷ [];
  rtp_options =
      register_receiver_packet_log fails os fl.rtp_dump_file fl.rtcp_dump_file
      ∷ feedback_options fails (get_rtcp fl.rtcp_feedback);
}
