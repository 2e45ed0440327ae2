-- ===== src/Media/Pipeline/Target.antt =====
-- The encoder's target bitrate: where the pipeline is made with it, and where it is set later.
use rtp_over_quic.Base.{
  ◌≡◌, refl, ◌∙◌, Bool, true, false, ◌||◌, String, str_eq, if◌then◌else◌, List, [], ◌∷◌, ◌++◌,
  Option, none, some, Outcome, ok, err, panic, ◌>>=◌, Bool-cases, inl, inr,
}
use rtp_over_quic.Media.Config.{Config, ConfigOption, new_config}
use rtp_over_quic.Media.Bitrate.{PipelineLib, set_property, set_value}
use rtp_over_quic.Media.Pipeline.{
  Setting, number, text, Element, element, payloader_settings, payloader_if, encoder_elements,
  input_elements, source_elements,
}

abbrev setting_of : String → List (String × Setting) → Option Setting
setting_of prop [] = none
setting_of prop ((name, value) ∷ settings) =
    if str_eq name prop then some value else setting_of prop settings

abbrev is_named : String → Option Setting → Bool
is_named name none = false
is_named name (some (number n)) = false
is_named name (some (text t)) = str_eq t name

-- A property of the first element with that name.
abbrev pub find_setting : String → String → List Element → Option Setting
find_setting name prop [] = none
find_setting name prop (e ∷ es) =
    if is_named name (setting_of "name" e.settings)
    then setting_of prop e.settings
    else find_setting name prop es

find_setting-input_elements :
    (src prop : String) (es : List Element)
    → find_setting "encoder" prop (input_elements src ++ es) ≡ find_setting "encoder" prop es
unfolding input_elements
find_setting-input_elements src prop es = elim (Bool-cases (str_eq src "videotestsrc")) [
  | inl test ↦ rw test refl
  | inr file ↦ rw file refl
]

-- The payloader has another name, and so has the sink of the pipeline.
find_setting-payloader_if :
    (gst : Bool) (factory prop : String) (c : Config)
    → find_setting "encoder" prop
        (payloader_if gst factory c ++ element "appsink" (("name", text "appsink") ∷ []) ∷ [])
      ≡ none
unfolding payloader_if payloader_settings
find_setting-payloader_if true factory prop c = refl
find_setting-payloader_if false factory prop c = refl

module _ (lib : PipelineLib) where
  -- What the encoder of a codec is made with.
  abbrev pub initial_target : Config → Option Setting
  initial_target c =
      if str_eq c.codec "vp8" || (str_eq c.codec "vp9" || str_eq c.codec "h264")
      then some (number (set_value lib c.codec c.target_bitrate))
      else none

  abbrev HasTarget : Config → Outcome (List Element) → Type 0
  HasTarget c (ok es) =
      find_setting "encoder" (set_property lib c.codec)
        (es ++ element "appsink" (("name", text "appsink") ∷ []) ∷ [])
      ≡ initial_target c
  HasTarget c (err e) = Unit {0}
  HasTarget c panic = Unit {0}

  encoder_elements-HasTarget : (c : Config) (gst : Bool) → HasTarget c (encoder_elements c gst)
  unfolding encoder_elements set_property set_value
  encoder_elements-HasTarget c gst = elim (Bool-cases (str_eq c.codec "vp8")) [
    | inl vp8 ↦ rw (vp8, set_property, set_value, vp8) refl
    | inr not_vp8 ↦ elim (Bool-cases (str_eq c.codec "vp9")) [
      | inl vp9 ↦ rw (not_vp8, vp9, set_property, set_value, not_vp8, vp9) refl
      | inr not_vp9 ↦ elim (Bool-cases (str_eq c.codec "h264")) [
        | inl h264 ↦
            rw (not_vp8, not_vp9, h264, set_property, set_value, not_vp8, not_vp9, h264) refl
        | inr not_h264 ↦ elim (Bool-cases (str_eq c.codec "h265")) [
          | inl h265 ↦
              rw
                (
                  not_vp8, not_vp9, not_h264, h265, set_property, set_value, not_vp8, not_vp9,
                  not_h264,
                )
                (find_setting-payloader_if gst "rtph265pay" (set_property lib c.codec) c)
          | inr not_h265 ↦ elim (Bool-cases (str_eq c.codec "av1")) [
            | inl av1 ↦ rw (not_vp8, not_vp9, not_h264, not_h265, av1) tt
            | inr not_av1 ↦
                rw
                  (
                    not_vp8, not_vp9, not_h264, not_h265, not_av1, set_property, set_value, not_vp8,
                    not_vp9, not_h264,
                  )
                  refl
          ]
        ]
      ]
    ]
  ]

  HasTarget-source :
      (src : String) (c : Config) (o : Outcome (List Element)) (es : List Element)
      → HasTarget c o
      → (o >>= λ encoder. ok (
          input_elements src
          ++ (encoder ++ element "appsink" (("name", text "appsink") ∷ []) ∷ [])))
        ≡ ok es
      → find_setting "encoder" (set_property lib c.codec) es ≡ initial_target c
  HasTarget-source src c (ok encoder) es has made =
      let same : input_elements src
            ++ (encoder ++ element "appsink" (("name", text "appsink") ∷ []) ∷ [])
          ≡ es =
        cc made in
      rw (← same) (find_setting-input_elements src (set_property lib c.codec) _ ∙ has)
  HasTarget-source src c (err e) es has made = cc made
  HasTarget-source src c panic es has made = cc made

  -- Where the elements of the source's pipeline are made: with vp8, vp9 and h264 the element that
  -- `SetTargetBitsPerSecond` addresses exists, and is made with the value that setting the
  -- configured target would give the same property. With any other codec, h265 among them, there is
  -- no element with that name and that property.
  pub source_elements-target :
      (src : String) (gst : Bool) (options : List ConfigOption) (es : List Element)
      → source_elements src gst options ≡ ok es
      → find_setting "encoder" (set_property lib (new_config options).codec) es
        ≡ initial_target (new_config options)
  unfolding source_elements
  source_elements-target src gst options es made = elim (Bool-cases (str_eq src "")) [
    | inl empty ↦ cc (rw (empty, source_elements) at made)
    | inr given ↦
        HasTarget-source src (new_config options) (encoder_elements (new_config options) gst) es
          (encoder_elements-HasTarget (new_config options) gst)
          (rw (given, source_elements) at made)
  ]
