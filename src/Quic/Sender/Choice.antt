-- ===== src/Quic/Sender/Choice.antt =====
-- Which packets go where.
use rtp_over_quic.Base.{
  ℕ, ◌<◌, ◌≡◌, refl, true, false, List, ◌++◌, Option, none, some, Outcome, ◌>>=◌, ok, err, panic,
  ltb, if◌then◌else◌, length, ◌⊎◌, inl, inr, ◌↔◌, arith, Bool-cases, ltb→lt,
}
use mathlib.Core.Path.{subst}
use rtp_over_quic.Pion.{RtpLib, Attributes, Value, of_reliability}
use rtp_over_quic.Quic.Mode.{SenderConfig, TransportMode, any, dgram, stream}
use rtp_over_quic.Quic.Sender.{
  Sending, on_dgram, on_stream, is_required, choose, media_write, write_dgram, by_mode,
}

-- The attributes ask for reliable delivery.
abbrev pub AsksReliable : Option Attributes → Type 0
AsksReliable none = ⊥
AsksReliable (some a) = a.reliability ≡ some (of_reliability true)

abbrev pub bytes_of : Sending → List ℕ
bytes_of (on_dgram pl acked) = pl
bytes_of (on_stream pl) = pl

abbrev pub OnStream : Sending → Type 0
OnStream (on_dgram pl acked) = ⊥
OnStream (on_stream pl) = Unit {0}

-- The reasons for a stream.
abbrev pub WantsStream : SenderConfig → List ℕ → Option Attributes → Type 0
WantsStream c pl attributes =
    (c.transport_mode ≡ stream)
    ⊎ ((c.transport_mode ≡ any) × ((c.max_mtu < length pl) ⊎ AsksReliable attributes))

-- The bytes are sent, and on a stream exactly for one of the reasons.
abbrev pub IsChosen : SenderConfig → List ℕ → Option Attributes → Sending → Type 0
IsChosen c pl attributes s = (bytes_of s ≡ pl) × (OnStream s ↔ WantsStream c pl attributes)

abbrev pub Ensures : (Sending → Type 0) → Outcome Sending → Type 0
Ensures P (ok s) = P s
Ensures P (err e) = Unit {0}
Ensures P panic = Unit {0}

abbrev ByNeed : SenderConfig → List ℕ → Option Value → Sending → Type 0
ByNeed c pl reliability s =
    (bytes_of s ≡ pl)
    × (OnStream s ↔ ((c.max_mtu < length pl) ⊎ (reliability ≡ some (of_reliability true))))

module _ (r : RtpLib) (c : SenderConfig) where
  needed :
      (now : ℕ) (header : r.Header) (pl : List ℕ) (reliability : Option Value)
      → ltb c.max_mtu (length pl) ≡ false
      → Ensures (ByNeed c pl reliability) (
          is_required reliability >>= λ required.
          ok (if required then on_stream pl else write_dgram r c now header pl))
  needed now header pl none small = (refl, ((λ h. absurd h), λ w. ground arith))
  needed now header pl (some (of_reliability true)) small = (refl, ((λ h. inr refl), λ w. tt))
  needed now header pl (some (of_reliability false)) small =
      (refl, ((λ h. absurd h), λ w. ground arith))
  needed now header pl (some _) small = tt

  abbrev ByAttributes : List ℕ → Option Attributes → Sending → Type 0
  ByAttributes pl attributes s =
      (bytes_of s ≡ pl) × (OnStream s ↔ ((c.max_mtu < length pl) ⊎ AsksReliable attributes))

  choose-ByAttributes :
      (now : ℕ) (header : r.Header) (pl : List ℕ) (attributes : Option Attributes)
      → Ensures (ByAttributes pl attributes) (choose r c now header pl attributes)
  unfolding choose
  choose-ByAttributes now header pl none = elim (Bool-cases (ltb c.max_mtu (length pl))) [
    | inl large ↦ rw large (refl, ((λ h. inl (ltb→lt c.max_mtu (length pl) large)), λ w. tt))
    | inr small ↦ rw small (refl, ((λ h. absurd h), λ w. ground arith))
  ]
  choose-ByAttributes now header pl (some a) = elim (Bool-cases (ltb c.max_mtu (length pl))) [
    | inl large ↦ rw large (refl, ((λ h. inl (ltb→lt c.max_mtu (length pl) large)), λ w. tt))
    | inr small ↦ rw small (needed now header pl a.reliability small)
  ]

  by_mode-IsChosen :
      (mode : TransportMode) (now : ℕ) (header : r.Header) (pl : List ℕ)
      (attributes : Option Attributes)
      → c.transport_mode ≡ mode
      → Ensures (IsChosen c pl attributes) (by_mode r c mode now header pl attributes)
  by_mode-IsChosen dgram now header pl attributes e = (refl, ((λ h. absurd h), λ w. ground arith))
  by_mode-IsChosen stream now header pl attributes e = (refl, ((λ h. inl e), λ w. tt))
  by_mode-IsChosen any now header pl attributes e =
      weaken (choose r c now header pl attributes) (choose-ByAttributes now header pl attributes)
    where
      weaken :
          (o : Outcome Sending)
          → Ensures (ByAttributes pl attributes) o
          → Ensures (IsChosen c pl attributes) o
      weaken (ok s) (b, (f, g)) = (b, ((λ h. inr (e, f h)), λ w. ground (arith, g)))
      weaken (err x) h = tt
      weaken panic h = tt

  -- Where the header marshals and the writer of a media stream sends without an error or a panic:
  -- what it sends is the flow ID, the marshalled header and the payload. It goes on a stream of its
  -- own exactly if the mode is STREAM, or the mode is ANY and the packet is larger than `maxMTU` or
  -- its attributes have the reliability REQUIRED; it goes in a datagram otherwise.
  pub media_write-IsChosen :
      (id_bytes : List ℕ) (now : ℕ) (header : r.Header) (payload : List ℕ)
      (attributes : Option Attributes) (header_buf : List ℕ) (s : Sending)
      → r.marshal header ≡ ok header_buf
      → media_write r c id_bytes now header payload attributes ≡ ok s
      → IsChosen c (id_bytes ++ (header_buf ++ payload)) attributes s
  unfolding media_write
  media_write-IsChosen id_bytes now header payload attributes header_buf s marshalled e =
      let pl = id_bytes ++ (header_buf ++ payload) in
      subst (Ensures (IsChosen c pl attributes)) (rw (marshalled, media_write) at e)
        (by_mode-IsChosen c.transport_mode now header pl attributes refl)
