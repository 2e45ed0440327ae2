-- ===== src/Scream/Receiver/Spacing.antt =====
-- When feedback is written.
use rtp_over_quic.Base.{
  ℕ, ◌+◌, ◌≤◌, ◌<◌, ◌≡◌, ◌≢◌, refl, Bool, true, false, List, [], ◌∷◌, ◌++◌, if◌then◌else◌, ltb,
  ltb→lt, Bool-cases, ◌⊎◌, inl, inr, arith,
}
use rtp_over_quic.Base.Assoc.{has_key}
use rtp_over_quic.Pion.{RtpLib, FloatLib}
use rtp_over_quic.Scream.Queue.{Packet}
use rtp_over_quic.Scream.Receiver.{
  RxLib, Place, starting, running, returned, Event, arrives, ticks, binds, unbinds, closes,
  loop_leaves, ticker_leaves, Act, receives, writes, Receiver, report_all, report_if_due, tick,
  deliver, take_packet, step,
}

abbrev has_report : List Act → Bool
has_report [] = false
has_report (receives t ssrc size seq ∷ acts) = has_report acts
has_report (writes feedback ∷ acts) = true

-- The time of a report that `loop` writes for a packet.
abbrev report_time : {r : RtpLib} → Event r → List Act → List ℕ
report_time (arrives p now) acts = if has_report acts then now ∷ [] else []
report_time _ acts = []

-- Each time is more than the interval after the one before it.
abbrev pub IsSpaced : ℕ → ℕ → List ℕ → Type 0
IsSpaced interval last [] = Unit {0}
IsSpaced interval last (t ∷ ts) = (last + interval < t) × IsSpaced interval t ts

IsSpaced-le :
    (interval last later : ℕ) (ts : List ℕ)
    → last ≤ later
    → IsSpaced interval later ts
    → IsSpaced interval last ts
IsSpaced-le interval last later [] le spaced = tt
IsSpaced-le interval last later (t ∷ ts) le (after, spaced) = (omega arith, spaced)

report_time-due :
    (last interval now : ℕ) (reports : Bool)
    → last + interval < now
    → (((if reports then now ∷ [] else []) ≡ []) × (last ≤ now))
      ⊎ (((if reports then now ∷ [] else []) ≡ now ∷ []) × (last + interval < now))
report_time-due last interval now true due = inr (refl, due)
report_time-due last interval now false due = inl (refl, omega arith)

module _ (f : FloatLib) (x : RxLib) (interval : ℕ) where
  tick_after :
      (place : Place) (now : ℕ) (s : Receiver x)
      → let (s', acts) = tick f x interval place now s in
        (s'.loop ≡ s.loop) × (s'.last_feedback ≡ s.last_feedback)
  unfolding tick
  tick_after starting now s = (refl, refl)
  tick_after running now s = (refl, refl)
  tick_after returned now s = (refl, refl)

module _ {r : RtpLib} (f : FloatLib) (x : RxLib) (interval : ℕ) where
  -- The times of the reports that packets cause.
  unfoldable pub report_times : Receiver x → List (Event r) → List ℕ
  report_times s [] = []
  report_times s (e ∷ es) =
      let (s', acts) = step f x interval s e in report_time e acts ++ report_times s' es

  -- Either no packet causes a report, and the time of the last one does not go back; or one is due,
  -- and its time is remembered.
  IsTimed : ℕ → Event r → ℕ → List Act → Type 0
  IsTimed last e last' acts =
      ((report_time e acts ≡ []) × (last ≤ last'))
      ⊎ ((report_time e acts ≡ last' ∷ []) × (last + interval < last'))

  deliver-no_report :
      (p : Packet r) (rxs : List (ℕ × x.Rx))
      → (acts : List Act) → has_report ((deliver f x interval p rxs).1 ++ acts) ≡ has_report acts
  unfolding deliver
  deliver-no_report p rxs acts = elim (Bool-cases (has_key (r.ssrc p.header) rxs)) [
    | inl there ↦ rw there refl
    | inr missing ↦ rw missing refl
  ]

  take_packet-IsTimed :
      (p : Packet r) (now : ℕ) (s : Receiver x)
      → let (s', acts) = take_packet f x interval running p now s in
        IsTimed s.last_feedback (arrives p now) s'.last_feedback acts
  unfolding take_packet report_if_due IsTimed
  take_packet-IsTimed p now s =
      let rxs = (deliver f x interval p s.rxs).0 in
      let reports = (report_all f x interval now (r.marker p.header) rxs).1 in
      elim (Bool-cases (ltb (s.last_feedback + interval) now)) [
        | inl due ↦
            rw (due, deliver-no_report p s.rxs reports)
              (report_time-due s.last_feedback interval now (has_report reports) (ltb→lt _ _ due))
        | inr early ↦ rw (early, deliver-no_report p s.rxs []) (inl (refl, omega arith))
      ]

  take_packet_after :
      (place : Place) (p : Packet r) (now : ℕ) (s : Receiver x)
      → s.loop ≡ place
      → place ≢ starting
      → let (s', acts) = take_packet f x interval place p now s in
        (s'.loop ≢ starting) × IsTimed s.last_feedback (arrives p now) s'.last_feedback acts
  unfolding take_packet report_if_due IsTimed
  take_packet_after starting p now s e began = absurd (began refl)
  take_packet_after running p now s e began = (ground arith, take_packet-IsTimed p now s)
  take_packet_after returned p now s e began = (ground arith, inl (refl, omega arith))

  step-IsTimed :
      (s : Receiver x) (e : Event r)
      → s.loop ≢ starting
      → let (s', acts) = step f x interval s e in
        (s'.loop ≢ starting) × IsTimed s.last_feedback e s'.last_feedback acts
  unfolding step IsTimed
  step-IsTimed s (arrives p now) began = take_packet_after s.loop p now s refl began
  step-IsTimed s (ticks now) began =
      let (place, last) = tick_after f x interval s.ticker now s in
      (rw place began, inl (refl, omega (arith, last)))
  step-IsTimed s (binds ssrc) began = (began, inl (refl, omega arith))
  step-IsTimed s (unbinds ssrc) began = (began, inl (refl, omega arith))
  step-IsTimed s closes began = (began, inl (refl, omega arith))
  step-IsTimed s loop_leaves began = ground arith
  step-IsTimed s ticker_leaves began = ground arith

  -- Once the first packet has come: whatever arrives, and however streams come and go, the reports
  -- that `loop` writes for packets are each more than the interval after the one before it, and
  -- after the time that it remembers.
  pub report_times-IsSpaced :
      (s : Receiver x) (es : List (Event r))
      → s.loop ≢ starting
      → IsSpaced interval s.last_feedback (report_times s es)
  unfolding report_times IsTimed
  report_times-IsSpaced s [] began = tt
  report_times-IsSpaced s (e ∷ es) began =
      let (s', acts) = step f x interval s e in
      let (began', timed) = step-IsTimed s e began in
      let spaced = report_times-IsSpaced s' es began' in
      elim timed [
        | inl (none_written, le) ↦ rw none_written (IsSpaced-le interval _ _ _ le spaced)
        | inr (one, due) ↦ rw one (due, spaced)
      ]
