-- ===== src/Scream/Locking/Deadlock.antt =====
-- The deadlock between a report and the start of the pacing loop.
use rtp_over_quic.Base.{◌≡◌, refl, true, arith}
use rtp_over_quic.Base.Runs.{Steps, here, later, Steps-keeps}
use rtp_over_quic.Scream.Locking.{
  nobody, by_reader, reading, sending_feedback, locking, System, initial, Step, reader_locks,
  reader_finds, reader_misses, feedback_meets, reader_unlocks, writer_locks, writer_registers,
  writer_starts, writer_enqueues, frame_meets, pacer_locks, pacer_unlocks, timer_fires, pacer_rests,
  pacer_returns, closes,
}
use rtp_over_quic.Scream.Locking.Invariant.{IsValid, Step-IsValid, Steps-IsValid}

-- The reader holds the mutex that the pacing loop waits for, and waits for the pacing loop.
pub record IsDoomed (s : System) : Type 0 where
  pub sends : s.reader ≡ sending_feedback
  pub waits : s.pacer ≡ locking
  pub holds : s.holder ≡ by_reader

Step-IsDoomed : {s t : System} → Step s t → IsValid s → IsDoomed s → IsDoomed t
Step-IsDoomed (reader_locks a b) v d = ground arith
Step-IsDoomed (reader_finds a b) v d = ground arith
Step-IsDoomed (reader_misses a b) v d = ground arith
Step-IsDoomed (feedback_meets queued a b) v d = ground arith
Step-IsDoomed (reader_unlocks a) v d = ground arith
Step-IsDoomed (writer_locks a b c) v d = ground arith
Step-IsDoomed (writer_registers a) v d = ground arith
Step-IsDoomed (writer_starts a) v d = ground arith
Step-IsDoomed (writer_enqueues a b) v d = ground arith
Step-IsDoomed (frame_meets queued a b) v d = ground arith
Step-IsDoomed (pacer_locks a b) v d = ground arith
Step-IsDoomed (pacer_unlocks a) v d = ground arith
Step-IsDoomed (timer_fires queued a b) v d = ground arith
Step-IsDoomed (pacer_rests timer a) v d = ground arith
Step-IsDoomed (pacer_returns a b) v d = ground arith
Step-IsDoomed (closes a) v d = ground arith

Steps-IsDoomed : {s t : System} → Steps Step s t → IsValid s → IsDoomed s → IsValid t × IsDoomed t
Steps-IsDoomed steps v d =
    Steps-keeps (λ s. IsValid s × IsDoomed s)
      (λ s t step (v, d). (Step-IsValid step v, Step-IsDoomed step v d)) steps (v, d)

-- Whatever happens next.
abbrev pub StaysDoomed : System → Type 0
StaysDoomed t = (u : System) → Steps Step t u → IsDoomed u

-- Wherever a stream is registered, its pacing loop is before the mutex that it takes once to look
-- the stream up, nobody holds that mutex, and the reader is about to take it: a report for the
-- stream may come first, and then, whatever happens next, `Close` included, the reader holds the
-- mutex for ever, and the loop never gets to its `select`, where it would send.
pub reached-IsDoomed :
    (s : System)
    → Steps Step initial s
    → s.registered ≡ true
    → s.reader ≡ reading
    → s.holder ≡ nobody
    → s.pacer ≡ locking
    → (t : System) × Steps Step s t × StaysDoomed t
reached-IsDoomed s steps is r free p =
    let looks = later here (reader_locks r free) in
    let sends = later looks (reader_finds refl is) in
    let v = Steps-IsValid (later (later steps (reader_locks r free)) (reader_finds refl is)) in
    (
      _,
      sends,
      λ u more. (Steps-IsDoomed more v (record { sends = refl; waits = p; holds = refl })).1,
    )
