-- ===== src/Cmd/Priority.antt =====
-- The transport quic-prio from the media source to the wire: cmd/send.go's choice of the packetizer
-- and of the mode, media/gstreamer.go's reliability, and quic/sender.go's choice of the stream.
pub mod Paced
use rtp_over_quic.Base.{
  ℕ, zero, suc, ◌<◌, ◌≡◌, refl, sym, ap, ◌∙◌, Bool, true, false, List, [], ◌∷◌, ◌++◌, map, some, ok,
  ◌⊎◌, inl, inr, ◌↔◌, get_elem?, length, String,
}
use mathlib.Core.Path.{subst}
use rtp_over_quic.Pion.{RtpLib, FloatLib, of_reliability}
use rtp_over_quic.Media.Config.{Config}
use rtp_over_quic.Media.KeyFrame.{H264Lib}
use rtp_over_quic.Media.Play.{PacketLib, Input, Write, Writer, with_reliability, play}
use rtp_over_quic.Media.Play.Marking.{Tagged, call_of, source_packets, play-AreFirst}
use rtp_over_quic.Quic.Mode.{any, stream, transport_mode_from_string}
use rtp_over_quic.Quic.Sender.{Sending, media_write}
use rtp_over_quic.Quic.Sender.Choice.{
  OnStream, WantsStream, AsksReliable, bytes_of, media_write-IsChosen,
}
use rtp_over_quic.Cmd.Transport.{Flags, quic_sender_config, use_gst_packetizer}

module _ {ℓ} {A : Type ℓ} where
  get_elem?-append :
      (xs ys : List A) (i : ℕ) (a : A) → get_elem? xs i ≡ some a → get_elem? (xs ++ ys) i ≡ some a
  get_elem?-append [] ys i a found = cc found
  get_elem?-append (x ∷ xs) ys zero a found = found
  get_elem?-append (x ∷ xs) ys (suc i) a found = get_elem?-append xs ys i a found

  get_elem?-map {κ} :
      {B : Type κ} (g : A → B) (xs : List A) (i : ℕ) (b : B)
      → get_elem? (map g xs) i ≡ some b
      → (a : A) × (get_elem? xs i ≡ some a) × (g a ≡ b)
  get_elem?-map g [] i b found = cc found
  get_elem?-map g (x ∷ xs) zero b found = (x, refl, cc found)
  get_elem?-map g (x ∷ xs) (suc i) b found = get_elem?-map g xs i b found

prio_any : (fl : Flags) → fl.transport ≡ "quic-prio" → (quic_sender_config fl).transport_mode ≡ any
unfolding quic_sender_config transport_mode_from_string
prio_any fl prio = rw prio refl

prio_packetizes : (t : String) → t ≡ "quic-prio" → use_gst_packetizer t ≡ false
unfolding use_gst_packetizer
prio_packetizes t prio = rw prio refl

prio_mtu : (fl : Flags) → (quic_sender_config fl).max_mtu ≡ 1300
unfolding quic_sender_config
prio_mtu fl = refl

reliability_key : (key : Bool) → some (of_reliability key) ≡ some (of_reliability true) → key ≡ true
reliability_key true same = refl
reliability_key false same = cc same

-- With the mode ANY and the attributes of a frame's packet.
WantsStream-key :
    (fl : Flags) (pl : List ℕ) (key : Bool)
    → fl.transport ≡ "quic-prio"
    → WantsStream (quic_sender_config fl) pl (some (with_reliability key))
      ↔ ((1300 < length pl) ⊎ (key ≡ true))
WantsStream-key fl pl key prio =
    let mode = prio_any fl prio in let mtu = prio_mtu fl in rw (mode, mtu) (to, from)
  where
    to :
        (any ≡ stream)
          ⊎ ((any ≡ any) × ((1300 < length pl) ⊎ AsksReliable (some (with_reliability key))))
        → (1300 < length pl) ⊎ (key ≡ true)
    to (inl differ) = cc differ
    to (inr (same, inl large)) = inl large
    to (inr (same, inr asked)) = inr (reliability_key key asked)

    from :
        (1300 < length pl) ⊎ (key ≡ true)
        → (any ≡ stream)
          ⊎ ((any ≡ any) × ((1300 < length pl) ⊎ AsksReliable (some (with_reliability key))))
    from (inl large) = inr (refl, inl large)
    from (inr is_key) = inr (refl, inr (ap (λ k. some (of_reliability k)) is_key))

module _ {r : RtpLib} (f : FloatLib) (h : H264Lib) (l : PacketLib r) (writer : Writer r)
    (c : Config) where
  write_of :
      (inputs : List Input) (i : ℕ) (w : Write r)
      → get_elem? (play f h l writer c false inputs).0 i ≡ some w
      → (t : Tagged r) × (get_elem? (source_packets f h l c inputs) i ≡ some t) × (call_of t ≡ w)
  write_of inputs i w written =
      let (rest, same, all) = play-AreFirst f h l writer c inputs in
      get_elem?-map call_of (source_packets f h l c inputs) i w
        (ap (λ ws. get_elem? ws i) same ∙ get_elem?-append _ rest i w written)

  -- With the transport quic-prio, for whatever the media source writes and the media stream of the
  -- QUIC sender then sends without an error: the packet belongs to a frame of the source, in order;
  -- its bytes are those of the flow ID, the marshalled header and the payload; and it goes on a
  -- stream of its own exactly if these are more than 1300 or `isKeyFrame` takes the frame for a key
  -- frame, and in a datagram otherwise.
  pub play-OnStream :
      (fl : Flags) (inputs : List Input) (i : ℕ) (w : Write r) (id_bytes header_buf : List ℕ)
      (now : ℕ) (s : Sending)
      → fl.transport ≡ "quic-prio"
      → get_elem? (play f h l writer c (use_gst_packetizer fl.transport) inputs).0 i ≡ some w
      → r.marshal w.packet.header ≡ ok header_buf
      → media_write r
          (quic_sender_config fl)
          id_bytes
          now
          w.packet.header
          w.packet.payload
          w.attributes
        ≡ ok s
      → (key : Bool) × (get_elem? (source_packets f h l c inputs) i ≡ some (key, w.packet))
        × (bytes_of s ≡ id_bytes ++ (header_buf ++ w.packet.payload))
        × (OnStream s
            ↔ ((1300 < length (id_bytes ++ (header_buf ++ w.packet.payload))) ⊎ (key ≡ true)))
  play-OnStream fl inputs i w id_bytes header_buf now s prio written marshalled sent =
      let ((key, p), found, same) =
        write_of inputs i w (rw (prio_packetizes fl.transport prio) at written) in
      let (bytes, (to, from)) =
        media_write-IsChosen r (quic_sender_config fl) id_bytes now w.packet.header w.packet.payload
          w.attributes header_buf s marshalled sent in
      let pl = id_bytes ++ (header_buf ++ w.packet.payload) in
      let (to', from') = WantsStream-key fl pl key prio in
      let attributes : some (with_reliability key) ≡ w.attributes = ap (λ w. w.attributes) same in
      (
        key,
        found ∙ ap (λ w. some (key, w.packet)) same,
        bytes,
        (
          (λ on. to' (subst (WantsStream (quic_sender_config fl) pl) (sym attributes) (to on))),
          λ why. from (subst (WantsStream (quic_sender_config fl) pl) attributes (from' why)),
        ),
      )
