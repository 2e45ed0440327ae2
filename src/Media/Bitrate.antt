-- ===== src/Media/Bitrate.antt =====
-- The target bitrate of the media sources: media/gstreamer.go, `SetTargetBitsPerSecond` and
-- `GetTargetBitsPerSecond`.
use rtp_over_quic.Base.{
  ℕ, ◌≡◌, refl, str_eq-other, ◌∙◌, ◌||◌, String, str_eq, if◌then◌else◌, ◌/◌, Bool-cases, inl, inr,
}

-- A GStreamer pipeline: the unsigned properties of its elements.
pub record PipelineLib : Type 1 where
  pub Pipeline : Type 0
  pub set_uint : Pipeline → String → String → ℕ → Pipeline
  pub get_uint : Pipeline → String → String → ℕ

module _ (lib : PipelineLib) where
  -- The property of the encoder that holds the target, when it is set and when it is read.
  unfoldable pub set_property : String → String
  set_property codec =
      if str_eq codec "vp8" || str_eq codec "vp9" then "target-bitrate" else "bitrate"

  unfoldable pub set_value : String → ℕ → ℕ
  set_value codec bitrate =
      if str_eq codec "vp8" || str_eq codec "vp9"
      then bitrate
      else (if str_eq codec "h264" then bitrate / 1000 else bitrate)

  unfoldable set_target_bits_per_second : String → ℕ → lib.Pipeline → lib.Pipeline
  unfolding set_property set_value
  set_target_bits_per_second codec bitrate pipeline =
      lib.set_uint pipeline "encoder" (set_property codec) (set_value codec bitrate)

  unfoldable get_target_bits_per_second : String → lib.Pipeline → ℕ
  get_target_bits_per_second codec pipeline =
      lib.get_uint pipeline "encoder"
        (if str_eq codec "vp8" || str_eq codec "vp9" then "target-bitrate" else "bitrate")

  value_lem :
      (codec : String) (bitrate : ℕ)
      → set_value codec bitrate ≡ (if str_eq codec "h264" then bitrate / 1000 else bitrate)
  unfolding set_value
  value_lem codec bitrate = elim (Bool-cases (str_eq codec "vp8")) [
    | inl vp8 ↦ rw (vp8, str_eq-other codec "vp8" "h264" refl vp8) refl
    | inr not_vp8 ↦ elim (Bool-cases (str_eq codec "vp9")) [
      | inl vp9 ↦ rw (not_vp8, vp9, str_eq-other codec "vp9" "h264" refl vp9) refl
      | inr not_vp9 ↦ rw (not_vp8, not_vp9) refl
    ]
  ]

  -- If a property of the pipeline reads back as it was set: the target that is read is the target
  -- that was set, except with h264, where it is a thousandth of it, rounded down.
  get_target-set_target :
      ((p : lib.Pipeline) (element prop : String) (v : ℕ)
        → lib.get_uint (lib.set_uint p element prop v) element prop ≡ v)
      → (codec : String) (bitrate : ℕ) (p : lib.Pipeline)
      → get_target_bits_per_second codec (set_target_bits_per_second codec bitrate p)
        ≡ (if str_eq codec "h264" then bitrate / 1000 else bitrate)
  unfolding get_target_bits_per_second set_target_bits_per_second set_property set_value
  get_target-set_target reads codec bitrate p = reads p "encoder" _ _ ∙ value_lem codec bitrate
