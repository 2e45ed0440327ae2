-- ===== src/Media/Syncodec.antt =====
-- media/syncodec.go: the source and the sink. The statistical encoder, which makes the frames, is
-- another package's and a parameter; `WriteFrame` is in Media/Play. The struct of the source embeds
-- the configuration, and has a field `targetBitrate` of its own.
use Prim.Native.String.{◌++◌ as str_append}
use rtp_over_quic.Base.Int.{ℤ, pos, signed64}
use rtp_over_quic.Base.{
  ℕ, ◌≡◌, refl, List, [], ◌∷◌, ◌++◌, ap, sym, ◌∙◌, Option, none, some, Outcome, ok, err, panic,
  ◌>>=◌, length,
}
use rtp_over_quic.Media.Config.{
  Config, ConfigOption, Payloader, new_config, apply_all, default_config, initial_target_bitrate,
  payloader_for_codec,
}

-- `NewStatisticalEncoder` with its initial target bitrate, and the methods of the encoder. `Start`
-- runs in a goroutine of its own.
pub record EncoderLib : Type 1 where
  pub Encoder : Type 0
  pub new_statistical_encoder : ℤ → Outcome Encoder
  pub start : Encoder → Encoder
  pub close : Encoder → Encoder × Outcome (Unit {0})
  pub set_target_bitrate : ℤ → Encoder → Encoder

-- `SyncodecSink.Write`: the bytes are dropped, and all of them count as written.
unfoldable sink_write : List ℕ → Outcome ℕ
sink_write b = ok (length b)

apply_all-last :
    (r : ℕ) (options : List ConfigOption) (c : Config)
    → (apply_all (options ++ initial_target_bitrate r ∷ []) c).target_bitrate ≡ r
unfolding apply_all initial_target_bitrate
apply_all-last r [] c = refl
apply_all-last r (option ∷ options) c = apply_all-last r options (option c)

module _ (l : EncoderLib) where
  -- The packetizer is known by its payloader and the configuration, which it is made from.
  record SyncodecSource : Type 0 where
    pub config : Config
    pub own_target_bitrate : ℕ
    pub payloader : Payloader
    pub codec : l.Encoder

  -- The source for an encoder that could be made.
  abbrev with_encoder : Config → ℕ → Payloader → l.Encoder → SyncodecSource
  with_encoder c own_target_bitrate payloader codec = record {
    config = c;
    own_target_bitrate = own_target_bitrate;
    payloader = payloader;
    codec = codec;
  }

  abbrev with_payloader : Config → Option Payloader → Outcome SyncodecSource
  with_payloader c none =
      err (str_append "the requested codec " (str_append c.codec " does not have a payloader"))
  with_payloader c (some payloader) =
      let own_target_bitrate : ℕ = 0 in
      (do
        codec ← l.new_statistical_encoder (signed64 own_target_bitrate)
        ok (with_encoder c own_target_bitrate payloader codec))

  -- `s.targetBitrate` is the field of the struct, not that of the configuration.
  unfoldable new_syncodec_source : List ConfigOption → Outcome SyncodecSource
  new_syncodec_source options =
      let c = new_config options in with_payloader c (payloader_for_codec c.codec)

  unfoldable play : SyncodecSource → SyncodecSource
  play s = record s { codec = l.start s.codec }

  unfoldable stop : SyncodecSource → SyncodecSource × Outcome (Unit {0})
  stop s = let (codec, result) = l.close s.codec in (record s { codec = codec }, result)

  -- With `int(r)`.
  unfoldable set_target_bits_per_second : ℕ → SyncodecSource → SyncodecSource
  set_target_bits_per_second r s = record s { codec = l.set_target_bitrate (signed64 r) s.codec }

  -- What a source that is made holds.
  IsMade : Config → SyncodecSource → Type 0
  IsMade c s = (s.config ≡ c) × (l.new_statistical_encoder (pos 0) ≡ ok s.codec)

  encoder-IsMade :
      (c : Config) (payloader : Payloader) (o : Outcome l.Encoder) (s : SyncodecSource)
      → l.new_statistical_encoder (pos 0) ≡ o
      → (do codec ← o; ok (with_encoder c 0 payloader codec)) ≡ ok s
      → IsMade c s
  unfolding IsMade
  encoder-IsMade c payloader (ok codec) s o made =
      let same : with_encoder c 0 payloader codec ≡ s = cc made in
      (ap (λ s. s.config) (sym same), o ∙ ap (λ s. ok s.codec) same)
  encoder-IsMade c payloader (err e) s o made = cc made
  encoder-IsMade c payloader panic s o made = cc made

  with_payloader-IsMade :
      (c : Config) (o : Option Payloader) (s : SyncodecSource)
      → with_payloader c o ≡ ok s
      → IsMade c s
  with_payloader-IsMade c none s made = cc made
  with_payloader-IsMade c (some payloader) s made =
      encoder-IsMade c payloader (l.new_statistical_encoder (pos 0)) s refl made

  -- A source that is made with an initial target bitrate as its last option has it in its
  -- configuration, and its encoder is made with the bitrate 0 all the same.
  new_syncodec_source-new_statistical_encoder :
      (options : List ConfigOption) (r : ℕ) (s : SyncodecSource)
      → new_syncodec_source (options ++ initial_target_bitrate r ∷ []) ≡ ok s
      → (s.config.target_bitrate ≡ r) × (l.new_statistical_encoder (pos 0) ≡ ok s.codec)
  unfolding new_syncodec_source new_config IsMade
  new_syncodec_source-new_statistical_encoder options r s made =
      let c = new_config (options ++ initial_target_bitrate r ∷ []) in
      let (config, encoder) = with_payloader-IsMade c (payloader_for_codec c.codec) s made in
      (ap (λ c. c.target_bitrate) config ∙ apply_all-last r options default_config, encoder)
