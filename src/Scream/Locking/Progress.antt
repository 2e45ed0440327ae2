-- ===== src/Scream/Locking/Progress.antt =====
-- In which states the goroutines of a stream can go on.
use rtp_over_quic.Base.{◌≡◌, refl, true, arith, ◌⊎◌, inl, inr, Bool-cases}
use rtp_over_quic.Base.Runs.{Steps}
use rtp_over_quic.Scream.Locking.{
  nobody, by_reader, by_writer, by_pacer, reading, looking_up, sending_feedback, leaving, idle,
  registering, starting, sending_frame, unborn, locking, holding, selecting, pacing, returned,
  System, initial, Step, reader_locks, reader_finds, reader_misses, feedback_meets, reader_unlocks,
  writer_locks, writer_registers, writer_starts, writer_enqueues, frame_meets, pacer_locks,
  pacer_unlocks, timer_fires, pacer_rests, pacer_returns, closes,
}
use rtp_over_quic.Scream.Locking.Invariant.{IsValid, Steps-IsValid}

-- A step of a goroutine of the stream, not a call of `Close`.
abbrev pub CanMove : System → Type 0
CanMove s = (t : System) × Step s t × (t.closed ≡ s.closed)

-- The reader holds the mutex and waits for the pacing loop, which waits for the mutex or has
-- returned; the writer waits for the pacing loop as well.
abbrev pub IsDead : System → Type 0
IsDead s =
    (s.reader ≡ sending_feedback)
    × (s.writer ≡ sending_frame)
    × ((s.pacer ≡ locking) ⊎ (s.pacer ≡ returned))

module _ (s : System) (v : IsValid s) where
  open v use {reader_holds, by_the_reader, by_the_writer, by_the_pacer, born, framed, named, alone}

  -- A reader between two SSRCs gets the mutex, or the holder of the mutex gives it back.
  reader_can : s.reader ≡ reading → CanMove s
  reader_can r =
      elim s.holder as (λ h. s.holder ≡ h → CanMove s) [
        | nobody ↦ λ e. (_, reader_locks r e, refl)
        | by_reader ↦ λ e. absurd (by_the_reader e r)
        | by_writer ↦ λ e. (_, writer_registers (by_the_writer e), refl)
        | by_pacer ↦ λ e. (_, pacer_unlocks (by_the_pacer e), refl)
      ]
        refl

  looking_can : s.reader ≡ looking_up → CanMove s
  looking_can r = elim (Bool-cases s.registered) [
    | inl is ↦ (_, reader_finds r is, refl)
    | inr not ↦ (_, reader_misses r not, refl)
  ]

  -- A writer that has its stream registered before a reader sends feedback.
  idle_can : s.reader ≡ sending_feedback → s.writer ≡ idle → CanMove s
  idle_can r w = elim (Bool-cases s.initialized) [
    | inl is ↦ (_, writer_enqueues w is, refl)
    | inr not ↦ absurd (ground (arith, alone (named r) not))
  ]

  framed_moves : s.reader ≡ sending_feedback → s.writer ≡ sending_frame → CanMove s ⊎ IsDead s
  framed_moves r w =
      elim s.pacer as (λ p. s.pacer ≡ p → CanMove s ⊎ IsDead s) [
        | unborn ↦ λ e. absurd (ground (arith, born e, framed w))
        | locking ↦ λ e. inr (r, w, inl e)
        | holding ↦ λ e. inl (_, pacer_unlocks e, refl)
        | selecting ↦ λ e. inl (_, feedback_meets true r e, refl)
        | pacing ↦ λ e. inl (_, pacer_rests true e, refl)
        | returned ↦ λ e. inr (r, w, inr e)
      ]
        refl

  sending_moves : s.reader ≡ sending_feedback → CanMove s ⊎ IsDead s
  sending_moves r =
      elim s.writer as (λ w. s.writer ≡ w → CanMove s ⊎ IsDead s) [
        | idle ↦ λ e. inl (idle_can r e)
        | registering ↦ λ e. inl (_, writer_registers e, refl)
        | starting ↦ λ e. inl (_, writer_starts e, refl)
        | sending_frame ↦ λ e. framed_moves r e
      ]
        refl

  IsValid-moves : CanMove s ⊎ IsDead s
  IsValid-moves =
      elim s.reader as (λ r. s.reader ≡ r → CanMove s ⊎ IsDead s) [
        | reading ↦ λ e. inl (reader_can e)
        | looking_up ↦ λ e. inl (looking_can e)
        | sending_feedback ↦ λ e. sending_moves e
        | leaving ↦ λ e. inl (_, reader_unlocks e, refl)
      ]
        refl

-- A dead state has no step but `Close`, which changes nothing else.
IsDead-stuck : {s t : System} → IsValid s → Step s t → IsDead s → t ≡ record s { closed = true }
IsDead-stuck v (closes a) dead = refl
IsDead-stuck v (reader_locks a b) dead = absurd (ground arith)
IsDead-stuck v (reader_finds a b) dead = absurd (ground arith)
IsDead-stuck v (reader_misses a b) dead = absurd (ground arith)
IsDead-stuck v (feedback_meets queued a b) dead = absurd (ground arith)
IsDead-stuck v (reader_unlocks a) dead = absurd (ground arith)
IsDead-stuck v (writer_locks a b c) dead = absurd (ground arith)
IsDead-stuck v (writer_registers a) dead = absurd (ground arith)
IsDead-stuck v (writer_starts a) dead = absurd (ground arith)
IsDead-stuck v (writer_enqueues a b) dead = absurd (ground arith)
IsDead-stuck v (frame_meets queued a b) dead = absurd (ground arith)
IsDead-stuck v (pacer_locks a b) dead = absurd (ground arith)
IsDead-stuck v (pacer_unlocks a) dead = absurd (ground arith)
IsDead-stuck v (timer_fires queued a b) dead = absurd (ground arith)
IsDead-stuck v (pacer_rests timer a) dead = absurd (ground arith)
IsDead-stuck v (pacer_returns a b) dead = absurd (ground arith)

-- No step is left but `Close`, which changes nothing else.
abbrev pub OnlyCloses : System → Type 0
OnlyCloses s = (t : System) → Step s t → t ≡ record s { closed = true }

-- In every state that is reached, either a goroutine of the stream can go on, or the state is dead
-- and no step is left but `Close`, which does not help: the reader holds the mutex and waits for
-- the pacing loop, the writer waits for it too, and it waits for the mutex or has returned.
pub Steps-moves : (s : System) → Steps Step initial s → CanMove s ⊎ (IsDead s × OnlyCloses s)
Steps-moves s steps =
    let v = Steps-IsValid steps in
    elim (IsValid-moves s v) [
      | inl moves ↦ inl moves
      | inr dead ↦ inr (dead, λ t step. IsDead-stuck v step dead)
    ]
