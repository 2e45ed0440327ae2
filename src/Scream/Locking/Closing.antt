-- ===== src/Scream/Locking/Closing.antt =====
-- `Close`, which waits until the pacing loop has returned: `BindLocalStream` counts the loop before
-- it is started.
use rtp_over_quic.Base.{◌≡◌, ◌≢◌, refl, sym, ◌∙◌, true, false, arith, ◌⊎◌, inl, inr, Bool-cases}
use rtp_over_quic.Base.Runs.{Steps, here, later, first, Steps-keeps}
use rtp_over_quic.Scream.Locking.{
  nobody, by_reader, by_writer, by_pacer, reading, looking_up, sending_feedback, leaving, idle,
  registering, starting, sending_frame, unborn, locking, holding, selecting, pacing, returned,
  System, initial, Step, reader_locks, reader_finds, reader_misses, feedback_meets, reader_unlocks,
  writer_locks, writer_registers, writer_starts, writer_enqueues, frame_meets, pacer_locks,
  pacer_unlocks, timer_fires, pacer_rests, pacer_returns, closes,
}
use rtp_over_quic.Scream.Locking.Invariant.{IsValid, Step-IsValid, Steps-IsValid}

-- The wait of `Close` can end: the loop can return.
abbrev pub CanEnd : System → Type 0
CanEnd s = (t : System) × Steps Step s t × (t.pacer ≡ returned)

-- The loop is before the mutex, or still to be started; the reader has the mutex, and looks the
-- stream up, which is there, or waits for the loop.
pub record IsCaught (s : System) : Type 0 where
  pub behind : (s.pacer ≡ unborn) ⊎ (s.pacer ≡ locking)
  pub held : s.holder ≡ by_reader
  pub there : s.registered ≡ true
  pub holds : (s.reader ≡ looking_up) ⊎ (s.reader ≡ sending_feedback)

CanEnd-first : {s t : System} → Step s t → CanEnd t → CanEnd s
CanEnd-first step (u, steps, ends) = (u, first step steps, ends)

selecting-CanEnd : (s : System) → s.pacer ≡ selecting → CanEnd s
selecting-CanEnd s p = elim (Bool-cases s.closed) [
  | inl is ↦ (_, later here (pacer_returns p is), refl)
  | inr not ↦ CanEnd-first (closes not) (_, later here (pacer_returns p refl), refl)
]

holding-CanEnd : (s : System) → s.pacer ≡ holding → CanEnd s
holding-CanEnd s p = CanEnd-first (pacer_unlocks p) (selecting-CanEnd _ refl)

free-CanEnd : (s : System) → s.pacer ≡ locking → s.holder ≡ nobody → CanEnd s
free-CanEnd s p free = CanEnd-first (pacer_locks p free) (holding-CanEnd _ refl)

-- The first call of the writer, from its registration on, where nobody has the mutex afterwards.
starting-CanEnd : (s : System) → s.writer ≡ starting → s.holder ≡ nobody → CanEnd s
starting-CanEnd s w free = CanEnd-first (writer_starts w) (free-CanEnd _ refl free)

registering-CanEnd : (s : System) → s.writer ≡ registering → CanEnd s
registering-CanEnd s w = CanEnd-first (writer_registers w) (starting-CanEnd _ refl refl)

-- Nothing has been written, and nobody has the mutex: the writer may still be called.
unborn-CanEnd : (s : System) → IsValid s → s.pacer ≡ unborn → s.holder ≡ nobody → CanEnd s
unborn-CanEnd s v p free =
    elim s.writer as (λ w. s.writer ≡ w → CanEnd s) [
      | idle ↦ λ w. CanEnd-first (writer_locks w (v.born p) free) (registering-CanEnd _ refl)
      | registering ↦ λ w. registering-CanEnd s w
      | starting ↦ λ w. starting-CanEnd s w free
      | sending_frame ↦ λ w. absurd (ground (arith, v.framed w, v.born p))
    ]
      refl

-- Before its `select`, the loop gets there once the mutex is free.
before-CanEnd :
    (s : System)
    → IsValid s
    → (s.pacer ≡ unborn) ⊎ (s.pacer ≡ locking)
    → s.holder ≡ nobody
    → CanEnd s
before-CanEnd s v (inl p) free = unborn-CanEnd s v p free
before-CanEnd s v (inr p) free = free-CanEnd s p free

leaving-CanEnd :
    (s : System)
    → IsValid s
    → (s.pacer ≡ unborn) ⊎ (s.pacer ≡ locking)
    → s.reader ≡ leaving
    → CanEnd s
leaving-CanEnd s v p r =
    CanEnd-first (reader_unlocks r) (before-CanEnd _ (Step-IsValid (reader_unlocks r) v) p refl)

module _ (s : System) (v : IsValid s) where
  open v use {by_the_reader, by_the_writer, by_the_pacer, named}

  read_ends :
      (s.pacer ≡ unborn) ⊎ (s.pacer ≡ locking) → s.holder ≡ by_reader → CanEnd s ⊎ IsCaught s
  read_ends p h =
      elim s.reader as (λ r. s.reader ≡ r → CanEnd s ⊎ IsCaught s) [
        | reading ↦ λ r. absurd (by_the_reader h r)
        | looking_up ↦ λ r. elim (Bool-cases s.registered) [
          | inl is ↦ inr (record { behind = p; held = h; there = is; holds = inl r })
          | inr not ↦ inl (
              CanEnd-first (reader_misses r not)
                (leaving-CanEnd _ (Step-IsValid (reader_misses r not) v) p refl))
        ]
        | sending_feedback ↦
            λ r. inr (record { behind = p; held = h; there = named r; holds = inr r })
        | leaving ↦ λ r. inl (leaving-CanEnd s v p r)
      ]
        refl

  before_ends : (s.pacer ≡ unborn) ⊎ (s.pacer ≡ locking) → CanEnd s ⊎ IsCaught s
  before_ends p =
      elim s.holder as (λ h. s.holder ≡ h → CanEnd s ⊎ IsCaught s) [
        | nobody ↦ λ h. inl (before-CanEnd s v p h)
        | by_reader ↦ λ h. read_ends p h
        | by_writer ↦ λ h. inl (registering-CanEnd s (by_the_writer h))
        | by_pacer ↦ λ h. absurd (ground (arith, by_the_pacer h))
      ]
        refl

  IsValid-ends : CanEnd s ⊎ IsCaught s
  IsValid-ends =
      elim s.pacer as (λ p. s.pacer ≡ p → CanEnd s ⊎ IsCaught s) [
        | unborn ↦ λ p. before_ends (inl p)
        | locking ↦ λ p. before_ends (inr p)
        | holding ↦ λ p. inl (holding-CanEnd s p)
        | selecting ↦ λ p. inl (selecting-CanEnd s p)
        | pacing ↦ λ p. inl (CanEnd-first (pacer_rests true p) (selecting-CanEnd _ refl))
        | returned ↦ λ p. inl (s, here, p)
      ]
        refl

Step-IsCaught : {s t : System} → Step s t → IsValid s → IsCaught s → IsCaught t
Step-IsCaught (reader_locks a b) v c = ground arith
Step-IsCaught (reader_finds a b) v c = ground arith
Step-IsCaught (reader_misses a b) v c = ground arith
Step-IsCaught (feedback_meets queued a b) v c = ground arith
Step-IsCaught (reader_unlocks a) v c = ground arith
Step-IsCaught (writer_locks a b d) v c = ground arith
Step-IsCaught (writer_registers a) v c = ground arith
Step-IsCaught (writer_starts a) v c = ground arith
Step-IsCaught (writer_enqueues a b) v c = ground arith
Step-IsCaught (frame_meets queued a b) v c = ground arith
Step-IsCaught (pacer_locks a b) v c = ground arith
Step-IsCaught (pacer_unlocks a) v c = ground arith
Step-IsCaught (timer_fires queued a b) v c = ground arith
Step-IsCaught (pacer_rests timer a) v c = ground arith
Step-IsCaught (pacer_returns a b) v c = ground arith
Step-IsCaught (closes a) v c = ground arith

-- The wait of `Close` never ends.
abbrev pub NeverEnds : System → Type 0
NeverEnds s = (t : System) → Steps Step s t → t.pacer ≢ returned

IsCaught-NeverEnds : (s : System) → IsValid s → IsCaught s → NeverEnds s
IsCaught-NeverEnds s v c t more =
    let (v', c') =
      Steps-keeps (λ s. IsValid s × IsCaught s)
        (λ s t step (v, c). (Step-IsValid step v, Step-IsCaught step v c)) more (v, c) in
    elim c'.behind [ inl p ↦ λ e. cc (sym p ∙ e) | inr p ↦ λ e. cc (sym p ∙ e) ]

-- In every state that is reached: the wait of `Close` can end, unless a reader has the mutex that
-- the pacing loop takes first, whether the loop has come to it or is still to be started, and
-- looks up the stream, which is there, or waits for the loop; in these states the wait never ends,
-- whatever happens next. And it has not ended as long as the first call of the writer has not
-- started the loop.
pub Steps-ends :
    (s : System)
    → Steps Step initial s
    → (CanEnd s ⊎ IsCaught s)
      × (IsCaught s → NeverEnds s)
      × (s.initialized ≡ false → s.pacer ≢ returned)
Steps-ends s steps =
    let v = Steps-IsValid steps in
    (IsValid-ends s v, IsCaught-NeverEnds s v, λ not e. cc (sym (v.early not) ∙ e))
