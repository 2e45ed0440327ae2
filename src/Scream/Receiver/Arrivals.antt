-- ===== src/Scream/Receiver/Arrivals.antt =====
-- Which packets scream-go's receivers get.
use mathlib.Core.List.{append-nil}
use rtp_over_quic.Base.{
  ℕ, ◌+◌, ◌≡◌, ◌≢◌, refl, sym, ap, ◌∙◌, Bool, true, List, [], ◌∷◌, ◌++◌, Option, none, some,
  if◌then◌else◌, ltb, mem_nat, All, Bool-cases, inl, inr, arith,
}
use rtp_over_quic.Base.Assoc.{has_key, keys, keys-update_key}
use rtp_over_quic.Pion.{RtpLib, FloatLib}
use rtp_over_quic.Scream.Queue.{Packet, size_of}
use rtp_over_quic.Scream.Ntp.{get_time_ntp}
use rtp_over_quic.Scream.Receiver.{
  RxLib, Place, starting, running, returned, Event, arrives, ticks, binds, unbinds, closes,
  loop_leaves, ticker_leaves, Act, receives, writes, Receiver, written, report_all, report_if_due,
  tick, deliver, take_packet, step, run,
}

-- The calls of `Receive`, by their arguments.
abbrev pub received : List Act → List (ℕ × ℕ × ℕ × ℕ)
received [] = []
received (receives t ssrc size seq ∷ acts) = (t, ssrc, size, seq) ∷ received acts
received (writes feedback ∷ acts) = received acts

-- The packets that arrive for the streams with these SSRCs: the time, the SSRC, the size and the
-- sequence number of each.
abbrev pub arrivals_for : {r : RtpLib} → FloatLib → List ℕ → List (Event r) → List (ℕ × ℕ × ℕ × ℕ)
arrivals_for f ssrcs [] = []
arrivals_for {r} f ssrcs (arrives p now ∷ es) =
    let rest = arrivals_for f ssrcs es in
    if mem_nat (r.ssrc p.header) ssrcs
    then (get_time_ntp f p.timestamp, r.ssrc p.header, size_of p, r.sequence_number p.header) ∷ rest
    else rest
arrivals_for f ssrcs (_ ∷ es) = arrivals_for f ssrcs es

-- No stream is bound or unbound, and `loop` does not return.
abbrev pub IsSteady : {r : RtpLib} → Event r → Type 0
IsSteady (binds ssrc) = ⊥
IsSteady (unbinds ssrc) = ⊥
IsSteady loop_leaves = ⊥
IsSteady _ = Unit {0}

received-append : (xs ys : List Act) → received (xs ++ ys) ≡ received xs ++ received ys
received-append [] ys = refl
received-append (receives t ssrc size seq ∷ xs) ys =
    ap (◌∷◌ (t, ssrc, size, seq)) (received-append xs ys)
received-append (writes feedback ∷ xs) ys = received-append xs ys

has_key-keys : {A : Type 0} (k : ℕ) (m : List (ℕ × A)) → has_key k m ≡ mem_nat k (keys m)
has_key-keys k [] = refl
has_key-keys k ((j, a) ∷ rest) = ground (arith, has_key-keys k rest)

module _ (f : FloatLib) (x : RxLib) (interval : ℕ) where
  -- Reports change neither the streams nor what was received.
  report_all-keys :
      (now : ℕ) (mark : Bool) (rxs : List (ℕ × x.Rx))
      → (keys (report_all f x interval now mark rxs).0 ≡ keys rxs)
        × (received (report_all f x interval now mark rxs).1 ≡ [])
  unfolding report_all
  report_all-keys now mark [] = (refl, refl)
  report_all-keys now mark ((k, rx) ∷ rest) =
      let (rx', feedback) = x.create_standardized_feedback rx (get_time_ntp f now) mark in
      let (same, none_received) = report_all-keys now mark rest in
      (
        ap (◌∷◌ k) same,
        received-append (written feedback) _ ∙ rw (written_lem feedback, none_received) refl,
      )
    where
      written_lem : (feedback : Option (List ℕ)) → received (written feedback) ≡ []
      written_lem none = refl
      written_lem (some feedback) = refl

  -- An event keeps the streams and the place of `loop`, and receives nothing.
  abbrev IsQuiet : Receiver x → Receiver x × List Act → Type 0
  IsQuiet s (s', acts) = (keys s'.rxs ≡ keys s.rxs) × (s'.loop ≡ s.loop) × (received acts ≡ [])

  report_if_due-IsQuiet :
      (marker : Bool) (now : ℕ) (s : Receiver x)
      → IsQuiet s (report_if_due f x interval marker now s)
  unfolding report_if_due
  report_if_due-IsQuiet marker now s = elim (Bool-cases (ltb (s.last_feedback + interval) now)) [
    | inl due ↦
        let (same, none_received) = report_all-keys now marker s.rxs in
        rw due (same, refl, none_received)
    | inr early ↦ rw early (refl, refl, refl)
  ]

  tick-IsQuiet :
      (place : Place) (now : ℕ) (s : Receiver x) → IsQuiet s (tick f x interval place now s)
  unfolding tick
  tick-IsQuiet running now s =
      let (same, none_received) = report_all-keys now true s.rxs in (same, refl, none_received)
  tick-IsQuiet starting now s = (refl, refl, refl)
  tick-IsQuiet returned now s = (refl, refl, refl)

module _ {r : RtpLib} (f : FloatLib) (x : RxLib) (interval : ℕ) where
  -- The one packet, if its stream is there.
  abbrev one_for : List ℕ → Packet r → List (ℕ × ℕ × ℕ × ℕ)
  one_for ssrcs p =
      if mem_nat (r.ssrc p.header) ssrcs
      then (get_time_ntp f p.timestamp, r.ssrc p.header, size_of p, r.sequence_number p.header) ∷ []
      else []

  deliver-keys :
      (p : Packet r) (rxs : List (ℕ × x.Rx))
      → (keys (deliver f x interval p rxs).0 ≡ keys rxs)
        × (received (deliver f x interval p rxs).1 ≡ one_for (keys rxs) p)
  unfolding deliver
  deliver-keys p rxs = elim (Bool-cases (mem_nat (r.ssrc p.header) (keys rxs))) [
    | inl there ↦ rw (has_key-keys (r.ssrc p.header) rxs, there) (keys-update_key _ _ rxs, refl)
    | inr missing ↦ rw (has_key-keys (r.ssrc p.header) rxs, missing) (refl, refl)
  ]

  Took : Receiver x → Packet r → Receiver x × List Act → Type 0
  Took s p (s', acts) =
      (keys s'.rxs ≡ keys s.rxs) × (s'.loop ≢ returned) × (received acts ≡ one_for (keys s.rxs) p)

  take_packet-Took :
      (place : Place) (p : Packet r) (now : ℕ) (s : Receiver x)
      → s.loop ≡ place
      → place ≢ returned
      → Took s p (take_packet f x interval place p now s)
  unfolding take_packet Took
  take_packet-Took starting p now s e there =
      let (same, one) = deliver-keys p s.rxs in (same, (λ e. cc e), one)
  take_packet-Took running p now s e there =
      let s' = record s { rxs = (deliver f x interval p s.rxs).0 } in
      let (same, one) = deliver-keys p s.rxs in
      let (same', place, none_received) =
        report_if_due-IsQuiet f x interval (r.marker p.header) now s' in
      (
        same' ∙ same,
        (λ e'. cc (sym (place ∙ e) ∙ e')),
        received-append (deliver f x interval p s.rxs).1 _ ∙ rw (one, none_received) (append-nil _),
      )
  take_packet-Took returned p now s e there = absurd (there refl)

  append_one :
      (ssrcs : List ℕ) (p : Packet r) (now : ℕ) (es : List (Event r))
      → one_for ssrcs p ++ arrivals_for f ssrcs es ≡ arrivals_for f ssrcs (arrives p now ∷ es)
  append_one ssrcs p now es = elim (Bool-cases (mem_nat (r.ssrc p.header) ssrcs)) [
    | inl there ↦ rw there refl
    | inr missing ↦ rw missing refl
  ]

  abbrev IsStep : Receiver x → Event r → List (Event r) → Receiver x × List Act → Type 0
  IsStep s e es (s', acts) =
      (keys s'.rxs ≡ keys s.rxs)
      × (s'.loop ≢ returned)
      × (received acts ++ arrivals_for f (keys s.rxs) es ≡ arrivals_for f (keys s.rxs) (e ∷ es))

  step-received :
      (s : Receiver x) (e : Event r) (es : List (Event r))
      → IsSteady e
      → s.loop ≢ returned
      → IsStep s e es (step f x interval s e)
  unfolding step Took
  step-received s (arrives p now) es steady there =
      let (same, there', one) = take_packet-Took s.loop p now s refl there in
      (same, there', rw one (append_one (keys s.rxs) p now es))
  step-received s (ticks now) es steady there =
      let (same, place, none_received) = tick-IsQuiet f x interval s.ticker now s in
      (same, (λ e. there (sym place ∙ e)), rw none_received refl)
  step-received s (binds ssrc) es steady there = absurd steady
  step-received s (unbinds ssrc) es steady there = absurd steady
  step-received s closes es steady there = (refl, there, refl)
  step-received s loop_leaves es steady there = absurd steady
  step-received s ticker_leaves es steady there = ground arith

  -- While no stream is bound or unbound and `loop` has not returned: whatever the ticker does,
  -- scream-go's receivers get exactly the packets whose stream is bound, in the order in which they
  -- arrive, each with its time, size and sequence number.
  pub run-received :
      (s : Receiver x) (es : List (Event r))
      → All IsSteady es
      → s.loop ≢ returned
      → received (run f x interval s es).1 ≡ arrivals_for f (keys s.rxs) es
  unfolding run
  run-received s [] steady there = refl
  run-received s (e ∷ es) (steady, more) there =
      let (s', acts) = step f x interval s e in
      let (same, there', all) = step-received s e es steady there in
      received-append acts _
      ∙ ap (◌++◌ (received acts)) (run-received s' es more there')
      ∙ ap (λ ks. received acts ++ arrivals_for f ks es) same
      ∙ all
