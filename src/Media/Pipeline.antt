-- ===== src/Media/Pipeline.antt =====
-- media/gstreamer.go, `NewGstreamerSource` and `NewGstreamerSink`: the elements of the pipelines,
-- in order, up to the text that gst-go makes of them.
pub mod Target
use Prim.Native.String.{◌++◌ as str_append}
use rtp_over_quic.Base.{
  ℕ, ◌/◌, ◌≡◌, refl, Bool, true, false, not, ◌||◌, String, str_eq, if◌then◌else◌, List, [], ◌∷◌,
  ◌++◌, Outcome, ok, err, panic, ◌>>=◌,
}
use rtp_over_quic.Media.Config.{Config, ConfigOption, new_config}

-- The value of a property.
pub data Setting : Type 0 where
  number : ℕ → Setting
  text : String → Setting

-- `gstreamer.NewElement` with its `gstreamer.Set`s.
pub record Element : Type 0 where
  pub factory : String
  pub settings : List (String × Setting)

abbrev pub element : String → List (String × Setting) → Element
element factory settings = record { factory = factory; settings = settings }

unfoldable pub payloader_settings : Config → List (String × Setting)
payloader_settings c =
    ("name", text "payloader")
    ∷ ("mtu", number c.mtu)
    ∷ ("seqnum-offset", number 0)
    ∷ ("ssrc", number c.ssrc)
    ∷ []

-- Only where the pipeline is to make the RTP packets.
unfoldable pub payloader_if : Bool → String → Config → List Element
unfolding payloader_settings
payloader_if use_gst_packetizer factory c =
    if use_gst_packetizer then element factory (payloader_settings c) ∷ [] else []

abbrev vpx_settings : Config → List (String × Setting)
vpx_settings c =
    ("name", text "encoder")
    ∷ ("error-resilient", text "default")
    ∷ ("cpu-used", number 4)
    ∷ ("deadline", number 1)
    ∷ ("target-bitrate", number c.target_bitrate)
    ∷ []

abbrev x264_settings : Config → List (String × Setting)
x264_settings c =
    ("name", text "encoder")
    ∷ ("pass", number 5)
    ∷ ("speed-preset", number 4)
    ∷ ("tune", number 4)
    ∷ ("bitrate", number (c.target_bitrate / 1000))
    ∷ []

-- The `switch` over the codec: the encoder and the payloader. A codec of no case adds nothing.
unfoldable pub encoder_elements : Config → Bool → Outcome (List Element)
unfolding payloader_if
encoder_elements c use_gst_packetizer =
    if str_eq c.codec "vp8" || str_eq c.codec "vp9"
    then ok (
        element (str_append c.codec "enc") (vpx_settings c)
        ∷ payloader_if use_gst_packetizer (str_append "rtp" (str_append c.codec "pay")) c)
    else (if str_eq c.codec "h264"
        then ok
            (element "x264enc" (x264_settings c) ∷ payloader_if use_gst_packetizer "rtph264pay" c)
        else (if str_eq c.codec "h265"
            then ok (element "x265enc" [] ∷ payloader_if use_gst_packetizer "rtph265pay" c)
            else (if str_eq c.codec "av1" then panic else ok [])))

-- Where the frames come from; `teeLiveVideo` is false.
unfoldable pub input_elements : String → List Element
input_elements src =
    (if str_eq src "videotestsrc"
      then element "videotestsrc" [] ∷ []
      else element "filesrc" (("location", text src) ∷ []) ∷ element "decodebin" [] ∷ [])
    ++ element "clocksync" [] ∷ []

-- `NewGstreamerSource`, up to `NewPipeline`.
unfoldable pub source_elements : String → Bool → List ConfigOption → Outcome (List Element)
unfolding encoder_elements input_elements
source_elements src use_gst_packetizer options =
    if str_eq src ""
    then err "invalid source string: , use 'videotestsrc' or a valid filename instead"
    else (do
      encoder ← encoder_elements (new_config options) use_gst_packetizer
      ok (
          input_elements src
          ++ (encoder ++ element "appsink" (("name", text "appsink") ∷ []) ∷ [])))

abbrev depayloader : String → String → List Element
depayloader caps factory = element caps [] ∷ element "rtpjitterbuffer" [] ∷ element factory [] ∷ []

-- The sink's `switch` over the codec.
unfoldable decoder_elements : String → Outcome (List Element)
decoder_elements codec =
    if str_eq codec "vp8"
    then ok (depayloader "application/x-rtp, encoding-name=VP8-DRAFT-IETF-01" "rtpvp8depay")
    else (if str_eq codec "vp9"
        then ok (depayloader "application/x-rtp, encoding-name=VP9-DRAFT-IETF-01" "rtpvp9depay")
        else (if str_eq codec "h264"
            then ok (depayloader "application/x-rtp" "rtph264depay")
            else (if str_eq codec "h265"
                then ok (depayloader "application/x-rtp" "rtph265depay")
                else (if str_eq codec "av1" then panic else ok []))))

unfoldable output_elements : String → List Element
output_elements dst =
    element "decodebin" []
    ∷ element "videoconvert" []
    ∷ element "clocksync" []
    ∷ element "videorate" []
    ∷ (if str_eq dst "autovideosink"
        then element "autovideosink" [] ∷ []
        else element "y4menc" [] ∷ element (str_append "filesink location=" dst) [] ∷ [])

-- `NewGstreamerSink`, up to `NewPipeline`.
unfoldable pub sink_elements : String → List ConfigOption → Outcome (List Element)
unfolding decoder_elements output_elements
sink_elements dst options = do
  decoder ← decoder_elements (new_config options).codec
  ok (element "appsrc" (("name", text "src") ∷ []) ∷ (decoder ++ output_elements dst))
