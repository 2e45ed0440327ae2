-- ===== src/Tests/MediaRuns.antt =====
-- The media sources at concrete inputs.
use rtp_over_quic.Base.{ℕ, ◌+◌, ◌≡◌, refl, true, false, List, [], ◌∷◌, none, some, err}
use rtp_over_quic.Media.Bitrate.{PipelineLib, set_property}
use rtp_over_quic.Media.KeyFrame.{H264Lib, any_idr, is, is_key_frame, units, is_key_frame-units}
use rtp_over_quic.Media.Config.{
  new_config, apply_all, initial_target_bitrate, default_config, Config, ConfigOption, set_codec,
}
use rtp_over_quic.Media.Play.{PacketLib, Writer, Input, buffer_of, ended, play}
use rtp_over_quic.Media.Play.Marking.{AreFirst, source_packets, play-AreFirst}
use rtp_over_quic.Media.Pipeline.{
  Element, element, text, source_elements, encoder_elements, input_elements, payloader_if,
}
use rtp_over_quic.Media.Pipeline.Target.{find_setting, initial_target, source_elements-target}
use rtp_over_quic.Tests.Packages.{small_rtp, thousandths}

-- A pipeline that remembers the last property that was set.
abbrev one_value : PipelineLib
one_value = record {
  Pipeline = ℕ;
  set_uint = λ p element prop v. v;
  get_uint = λ p element prop. p;
}

-- Every byte is a unit of that type.
abbrev byte_units : H264Lib
byte_units = record { opens = λ bytes. true; calls = units; coded_slice_idr = 5 }

-- An IDR slice behind the parameter sets is found.
is_key_frame-units_example : is_key_frame byte_units "h264" (7 ∷ 8 ∷ 5 ∷ []) ≡ is true
unfolding any_idr
is_key_frame-units_example = is_key_frame-units byte_units (7 ∷ 8 ∷ 5 ∷ []) 7 (8 ∷ 5 ∷ []) refl refl

-- A packetizer that makes one packet of each frame, with the next number as its header.
abbrev numbering : PacketLib small_rtp
numbering = record {
  Packetizer = ℕ;
  new_packetizer = λ pt ssrc payloader. 0;
  packetize = λ seq mtu bytes samples. (seq + 1, record { header = seq; payload = bytes } ∷ []);
  unmarshal = λ bytes. err "short";
}

-- The second packet is not accepted.
abbrev one_only : Writer small_rtp
one_only before w = elim before [ [] ↦ none | v ∷ vs ↦ some "closed" ]

abbrev vp8_config : Config
vp8_config = record default_config { codec = "vp8" }

-- A key frame, a frame that is none, and the end.
abbrev two_frames : List Input
two_frames =
    buffer_of (record { bytes = 2 ∷ []; duration = 40 })
    ∷ buffer_of (record { bytes = 3 ∷ []; duration = 40 })
    ∷ ended
    ∷ []

play-AreFirst_example :
    AreFirst
      (play thousandths byte_units numbering one_only vp8_config false two_frames)
      (source_packets thousandths byte_units numbering vp8_config two_frames)
play-AreFirst_example =
    play-AreFirst thousandths byte_units numbering one_only vp8_config two_frames

abbrev h265_options : List ConfigOption
h265_options = set_codec "h265" ∷ initial_target_bitrate 500000 ∷ []

abbrev h265_source : List Element
h265_source =
    element "videotestsrc" []
    ∷ element "clocksync" []
    ∷ element "x265enc" []
    ∷ element "appsink" (("name", text "appsink") ∷ [])
    ∷ []

-- The encoder of h265 has no name.
source_elements-target_example :
    find_setting "encoder" (set_property one_value (new_config h265_options).codec) h265_source
    ≡ initial_target one_value (new_config h265_options)
unfolding source_elements encoder_elements input_elements payloader_if new_config apply_all
    set_codec initial_target_bitrate
source_elements-target_example =
    source_elements-target one_value "videotestsrc" false h265_options h265_source refl
