-- ===== src/Scream/Pacing/Order.antt =====
-- The pacing loop neither loses nor reorders packets.
use rtp_over_quic.Base.{
  ℕ, ◌≡◌, refl, sym, ap, ◌∙◌, Bool, true, false, List, [], ◌∷◌, ◌++◌, map, Option, none, some,
  if◌then◌else◌, ltb, Bool-cases, inl, inr,
}
use rtp_over_quic.Pion.{RtpLib, FloatLib}
use rtp_over_quic.Scream.Queue.{Packet, Queue, dequeue, clear, size_of_queue}
use rtp_over_quic.Scream.Queue.Contents.{packets, to_list, packets-enqueue, dequeue-packets}
use rtp_over_quic.Scream.Ntp.{get_time_ntp}
use rtp_over_quic.Scream.Tx.{TxLib}
use rtp_over_quic.Scream.Pacing.{
  Event, new_feedback, new_frame, timer_fires, closes, round, enqueues, cleared, Fated, Loop, Place,
  selecting, pacing, returned, clear_if, wait_if, send, decided, pace, wake, at_place, step, run,
  milli, minus_one,
}
use mathlib.Core.List.{map-append, append_assoc, append-nil}

-- The packets that leave the queue, whatever becomes of them.
abbrev pub gone : {r : RtpLib} → List (Fated r) → List (Packet r)
gone = map λ x. x.1

-- The packets that other goroutines enqueue.
abbrev pub arrivals : {r : RtpLib} {f : FloatLib} → List (Event r f) → List (Packet r)
arrivals [] = []
arrivals (enqueues p ts ∷ es) = p ∷ arrivals es
arrivals (_ ∷ es) = arrivals es

gone-cleared : {r : RtpLib} (ps : List (Packet r)) → gone (map (λ p. (cleared, p)) ps) ≡ ps
gone-cleared [] = refl
gone-cleared (p ∷ ps) = ap (◌∷◌ p) (gone-cleared ps)

clear_if-packets :
    {r : RtpLib} {f : FloatLib} (b : Bool) (q : Queue r f)
    → gone (clear_if b q).1 ++ packets (clear_if b q).0 ≡ packets q
unfolding clear
clear_if-packets true q = append-nil _ ∙ gone-cleared (packets q)
clear_if-packets false q = refl

module _ {r : RtpLib} {f : FloatLib} (lib : TxLib r f) (ssrc : ℕ) where
  wait_if-queue : (t : f.Float) (l : Loop lib) → (wait_if lib ssrc t l).queue ≡ l.queue
  unfolding wait_if
  wait_if-queue t l = elim (Bool-cases (f.is_lt (milli f) t)) [ inl e ↦ rw e | inr e ↦ rw e ]

  send-packets :
      (now : ℕ) (t : f.Float) (l : Loop lib) (q : Queue r f) (o : Option (Packet r))
      → let (l', out) = send lib ssrc now t l (q, o) in
        gone out ++ packets l'.queue ≡ to_list o ++ packets q
  unfolding send
  send-packets now t l q none = refl
  send-packets now t l q (some p) = rw (wait_if-queue t) (ap (◌∷◌ p) (clear_if-packets _ q))

  decided-packets :
      (later : ℕ) (t : f.Float) (l : Loop lib)
      → let (l', out) = decided lib ssrc later t l in gone out ++ packets l'.queue ≡ packets l.queue
  unfolding decided
  decided-packets later t l = elim (Bool-cases (f.is_eq t (minus_one f))) [
    | inl e ↦ rw e
    | inr e ↦ elim (Bool-cases (f.is_le t (milli f))) [
      | inl small ↦
          rw (e, small)
            (send-packets later t l (dequeue l.queue).0 (dequeue l.queue).1
              ∙ sym (dequeue-packets l.queue))
      | inr large ↦ rw (e, large, wait_if-queue t l)
    ]
  ]

  pace-packets :
      (now later : ℕ) (l : Loop lib)
      → let (l', out) = pace lib ssrc now later l in gone out ++ packets l'.queue ≡ packets l.queue
  unfolding pace
  pace-packets now later l =
      let (tx, clears, transmit) = lib.is_ok_to_transmit l.tx (get_time_ntp f now) ssrc l.queue in
      let (q, out) = clear_if clears l.queue in
      rw (map-append _ out, append_assoc, decided-packets later transmit)
        (clear_if-packets clears l.queue)

  wake-queue : (l : Loop lib) → (wake lib ssrc l).queue ≡ l.queue
  unfolding wake
  wake-queue l = elim (Bool-cases (ltb 0 (size_of_queue l.queue))) [ inl e ↦ rw e | inr e ↦ rw e ]

  woken-packets :
      (l : Loop lib)
      → packets l.queue ++ [] ≡ packets (if l.timer_set then l else wake lib ssrc l).queue
  woken-packets l =
      append-nil _ ∙ elim (Bool-cases l.timer_set) [ inl e ↦ rw e | inr e ↦ rw (e, wake-queue) ]

  step-packets :
      (l : Loop lib) (e : Event r f)
      → let (l', out) = step lib ssrc l e in
        packets l.queue ++ arrivals (e ∷ []) ≡ gone out ++ packets l'.queue
  unfolding step
  step-packets l e = at l.place e
    where
      at :
          (place : Place) (e : Event r f)
          → let (l', out) = at_place lib ssrc place e l in
            packets l.queue ++ arrivals (e ∷ []) ≡ gone out ++ packets l'.queue
      at selecting new_feedback = woken-packets l
      at selecting new_frame = woken-packets l
      at selecting timer_fires = append-nil _ ∙ rw wake-queue
      at selecting closes = append-nil _
      at pacing (round now later) = append-nil _ ∙ sym (pace-packets now later l)
      at selecting (enqueues p ts) = sym (packets-enqueue p ts l.queue)
      at pacing (enqueues p ts) = sym (packets-enqueue p ts l.queue)
      at returned (enqueues p ts) = sym (packets-enqueue p ts l.queue)
      at _ _ = append-nil _

  arrivals-cons :
      (e : Event r f) (es : List (Event r f)) → arrivals (e ∷ es) ≡ arrivals (e ∷ []) ++ arrivals es
  arrivals-cons new_feedback es = refl
  arrivals-cons (enqueues p ts) es = refl
  arrivals-cons _ es = refl

  -- Whatever the congestion control answers, whenever the timer fires, and wherever other
  -- goroutines enqueue packets: those that were in the queue, followed by those that are enqueued,
  -- are those that leave the queue in the order in which they are written or cleared, followed by
  -- those that are in the queue in the end.
  pub gone-run :
      (l : Loop lib) (es : List (Event r f))
      → packets l.queue ++ arrivals es
        ≡ gone (run lib ssrc l es).1 ++ packets (run lib ssrc l es).0.queue
  unfolding run
  gone-run l [] = append-nil _
  gone-run l (e ∷ es) =
      let (l', out) = step lib ssrc l e in
      rw
        (
          arrivals-cons e es,
          map-append _ out,
          ← append_assoc (packets l.queue),
          step-packets l e,
          append_assoc (gone out),
          gone-run l' es,
        )
        (sym (append_assoc (gone out) _ _))
