-- ===== src/Scream/Pacing/Rounds.antt =====
-- The inner loop of the pacing goroutine ends.
use rtp_over_quic.Base.{
  ℕ, ◌<◌, ◌≤◌, ◌≡◌, refl, sym, ap, ◌∙◌, Bool, true, false, List, [], ◌∷◌, map, Option, none, some,
  arith, Bool-cases, ◌⊎◌, inl, inr, length,
}
use mathlib.Core.Path.{subst}
use rtp_over_quic.Pion.{RtpLib, FloatLib}
use rtp_over_quic.Scream.Ntp.{get_time_ntp}
use rtp_over_quic.Scream.Queue.{Packet, Queue, dequeue, clear, size_of_queue}
use rtp_over_quic.Scream.Tx.{TxLib}
use rtp_over_quic.Scream.Pacing.{
  Event, round, Loop, selecting, pacing, at_place, step, run, pace, send, decided, wait_if,
  clear_if, milli, minus_one,
}

-- A number is on one side of the limit; NaN is not.
abbrev IsComparable : (f : FloatLib) → f.Float → Type 0
IsComparable f t = f.is_le t (milli f) ≡ false → f.is_lt (milli f) t ≡ true

-- scream-go answers with a number, whatever it is asked.
abbrev AnswersNumbers : {r : RtpLib} {f : FloatLib} → TxLib r f → Type 0
AnswersNumbers {r} {f} lib =
    (tx : lib.Tx) (t ssrc : ℕ) (q : Queue r f)
    → let (tx', clears, transmit) = lib.is_ok_to_transmit tx t ssrc q in IsComparable f transmit

abbrev pub queued : {r : RtpLib} {f : FloatLib} {lib : TxLib r f} → Loop lib → ℕ
queued l = size_of_queue l.queue

-- Out of the inner loop, or at its head with fewer packets than before.
abbrev IsFurther : {r : RtpLib} {f : FloatLib} {lib : TxLib r f} → ℕ → Loop lib → Type 0
IsFurther n l = (l.place ≡ selecting) ⊎ ((l.place ≡ pacing) × (queued l < n))

-- Rounds of the inner loop, with their readings of the clock.
abbrev pub rounds : {r : RtpLib} {f : FloatLib} → List (ℕ × ℕ) → List (Event r f)
rounds = map λ (now, later). round now later

length-clear_if :
    {r : RtpLib} {f : FloatLib} (b : Bool) (q : Queue r f)
    → size_of_queue (clear_if b q).0 ≤ size_of_queue q
unfolding clear size_of_queue
length-clear_if true q = omega arith
length-clear_if false q = omega arith

dequeue-shrinks :
    {r : RtpLib} {f : FloatLib} (q : Queue r f)
    → ((dequeue q).1 ≡ none) ⊎ (size_of_queue (dequeue q).0 < size_of_queue q)
unfolding dequeue size_of_queue
dequeue-shrinks q =
    elim q.queue
      as (λ items.
        let q' = record q { queue = items } in
        ((dequeue q').1 ≡ none) ⊎ (size_of_queue (dequeue q').0 < size_of_queue q')) [
          | [] ↦ inl refl
          | item ∷ rest ↦ inr (omega arith)
        ]

module _ {r : RtpLib} {f : FloatLib} (lib : TxLib r f) (ssrc : ℕ) where
  wait_if-IsFurther :
      (t : f.Float) (l : Loop lib) (n : ℕ)
      → l.place ≡ pacing
      → queued l < n
      → IsFurther n (wait_if lib ssrc t l)
  unfolding wait_if
  wait_if-IsFurther t l n place fewer = elim (Bool-cases (f.is_lt (milli f) t)) [
    | inl e ↦ rw e (inl refl)
    | inr e ↦ rw e (inr (place, fewer))
  ]

  send-IsFurther :
      (now : ℕ) (t : f.Float) (l : Loop lib) (q : Queue r f) (o : Option (Packet r)) (n : ℕ)
      → l.place ≡ pacing
      → (o ≡ none) ⊎ (size_of_queue q < n)
      → IsFurther n (send lib ssrc now t l (q, o)).0
  unfolding send
  send-IsFurther now t l q none n place fewer = inl refl
  send-IsFurther now t l q (some p) n place (inl e) = cc
  send-IsFurther now t l q (some p) n place (inr fewer) =
      wait_if-IsFurther t _ n place (omega (arith, length-clear_if _ q))

  decided-IsFurther :
      (later : ℕ) (t : f.Float) (l : Loop lib) (n : ℕ)
      → IsComparable f t
      → l.place ≡ pacing
      → queued l ≤ n
      → IsFurther n (decided lib ssrc later t l).0
  unfolding decided
  decided-IsFurther later t l n total place h = elim (Bool-cases (f.is_eq t (minus_one f))) [
    | inl e ↦ rw e (inl refl)
    | inr e ↦ elim (Bool-cases (f.is_le t (milli f))) [
      | inl small ↦
          rw (e, small)
            (send-IsFurther later t l (dequeue l.queue).0 (dequeue l.queue).1 n place
              (elim (dequeue-shrinks l.queue) [
                | inl empty ↦ inl empty
                | inr fewer ↦ inr (omega arith)
              ]))
      | inr large ↦ rw (e, large) (inl (unfold wait_if in rw (total large)))
    ]
  ]

  pace-IsFurther :
      (now later : ℕ) (l : Loop lib)
      → AnswersNumbers lib
      → l.place ≡ pacing
      → IsFurther (queued l) (pace lib ssrc now later l).0
  unfolding pace
  pace-IsFurther now later l total place =
      decided-IsFurther later _ _ (queued l) (total l.tx (get_time_ntp f now) ssrc l.queue) place
        (length-clear_if _ l.queue)

  step-resting :
      (l : Loop lib) (now later : ℕ)
      → l.place ≡ selecting
      → (step lib ssrc l (round now later)).0 ≡ l
  unfolding step
  step-resting l now later e = ap (λ place. (at_place lib ssrc place (round now later) l).0) e

  step-pacing :
      (l : Loop lib) (now later : ℕ)
      → AnswersNumbers lib
      → l.place ≡ pacing
      → IsFurther (queued l) (step lib ssrc l (round now later)).0
  unfolding step
  step-pacing l now later total e =
      subst (λ place. IsFurther (queued l) (at_place lib ssrc place (round now later) l).0) (sym e)
        (pace-IsFurther now later l total e)

  resting :
      (l : Loop lib) (times : List (ℕ × ℕ))
      → l.place ≡ selecting
      → (run lib ssrc l (rounds times)).0.place ≡ selecting
  unfolding run
  resting l [] e = e
  resting l ((now, later) ∷ times) e =
      resting (step lib ssrc l (round now later)).0 times
        (ap (λ (k : Loop lib). k.place) (step-resting l now later e) ∙ e)

  -- If scream-go's answers are numbers and not NaN, and no packet is enqueued meanwhile, the inner
  -- loop is left within one round more than there are packets in the queue, whatever number the
  -- congestion control answers each time.
  pub rounds-place :
      (l : Loop lib) (times : List (ℕ × ℕ))
      → AnswersNumbers lib
      → l.place ≡ pacing
      → queued l < length times
      → (run lib ssrc l (rounds times)).0.place ≡ selecting
  unfolding run
  rounds-place l [] total e h = absurd (omega arith)
  rounds-place l ((now, later) ∷ times) total e h = elim (step-pacing l now later total e) [
    | inl out ↦ resting (step lib ssrc l (round now later)).0 times out
    | inr (place, fewer) ↦
        rounds-place (step lib ssrc l (round now later)).0 times total place (omega arith)
  ]
