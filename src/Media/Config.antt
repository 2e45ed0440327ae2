-- ===== src/Media/Config.antt =====
-- media/config.go: the configuration of a media source, and the payloader of a codec.
use rtp_over_quic.Base.{ℕ, String, str_eq, if◌then◌else◌, List, [], ◌∷◌, Option, none, some}

pub record Config : Type 0 where
  pub target_bitrate : ℕ
  pub ssrc : ℕ
  pub mtu : ℕ
  pub payload_type : ℕ
  pub clock_rate : ℕ
  pub codec : String

-- An option of the package changes the configuration; none of them returns an error.
abbrev pub ConfigOption : Type 0
ConfigOption = Config → Config

abbrev pub default_config : Config
default_config = record {
  target_bitrate = 100000;
  ssrc = 0;
  mtu = 1200;
  payload_type = 96;
  clock_rate = 90000;
  codec = "h264";
}

-- The loop over the options.
unfoldable pub apply_all : List ConfigOption → Config → Config
apply_all [] c = c
apply_all (option ∷ options) c = apply_all options (option c)

unfoldable pub new_config : List ConfigOption → Config
unfolding apply_all
new_config options = apply_all options default_config

unfoldable pub initial_target_bitrate : ℕ → ConfigOption
initial_target_bitrate r c = record c { target_bitrate = r }

unfoldable set_ssrc : ℕ → ConfigOption
set_ssrc ssrc c = record c { ssrc = ssrc }

unfoldable set_mtu : ℕ → ConfigOption
set_mtu mtu c = record c { mtu = mtu }

unfoldable set_payload_type : ℕ → ConfigOption
set_payload_type pt c = record c { payload_type = pt }

unfoldable set_clock_rate : ℕ → ConfigOption
set_clock_rate r c = record c { clock_rate = r }

unfoldable pub set_codec : String → ConfigOption
set_codec codec c = record c { codec = codec }

-- The payloaders of github.com/pion/rtp/codecs.
pub data Payloader : Type 0 where
  h264_payloader vp8_payloader vp9_payloader av1_payloader : Payloader

-- `none`: the codec has no payloader, an error.
unfoldable pub payloader_for_codec : String → Option Payloader
payloader_for_codec codec =
    if str_eq codec "h264"
    then some h264_payloader
    else (if str_eq codec "vp8"
        then some vp8_payloader
        else (if str_eq codec "vp9"
            then some vp9_payloader
            else (if str_eq codec "av1" then some av1_payloader else none)))
