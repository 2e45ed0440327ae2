-- ===== src/Quic/LocalFeedback/Waiting/Fate.antt =====
-- Whether an acknowledgement gets through.
use rtp_over_quic.Base.{
  ℕ, zero, suc, ◌+◌, ◌-◌, ◌≤◌, ◌≡◌, ◌≢◌, refl, true, false, ◌⊎◌, inl, inr, arith,
}
use native.Mathlib.Decide.{dec_lt}
use rtp_over_quic.Base.Runs.{Steps, here, later, append, Steps-keeps}
use rtp_over_quic.Quic.LocalFeedback.Waiting.{
  free, acking, GeneratorPlace, reporting, ReaderPlace, reading, System, capacity, initial, Step,
  calls_back, enters, takes, reports, generator_returns, receives, sends, reads, reader_returns,
  cancels,
}

-- The channel holds what it has room for, and a goroutine returns only once the context is
-- cancelled.
record IsValid (s : System) : Type 0 where
  pub room : s.pending ≤ capacity
  pub generates : (s.cancelled ≡ true) ⊎ (s.generator ≢ GeneratorPlace.returned)
  pub reads_on : (s.cancelled ≡ true) ⊎ (s.reader ≢ ReaderPlace.returned)

Step-IsValid : {s t : System} → Step s t → IsValid s → IsValid t
Step-IsValid (calls_back a) v = ground arith
Step-IsValid (enters a b) v = ground arith
Step-IsValid (takes report a b) v = ground arith
Step-IsValid (reports a b) v = ground arith
Step-IsValid (generator_returns a b) v = ground arith
Step-IsValid (receives a) v = ground arith
Step-IsValid (sends a b) v = ground arith
Step-IsValid (reads a) v = ground arith
Step-IsValid (reader_returns a b) v = ground arith
Step-IsValid cancels v = ground arith

-- Nothing takes a packet out of `ackedPkts` any more: the generator has returned, or it waits for a
-- reader that has.
abbrev pub IsStopped : System → Type 0
IsStopped s =
    (s.generator ≡ GeneratorPlace.returned)
    ⊎ ((s.generator ≡ reporting) × (s.reader ≡ ReaderPlace.returned))

-- Besides, the channel is full and quic-go waits.
record IsStalled (s : System) : Type 0 where
  pub stopped : IsStopped s
  pub full : s.pending ≡ capacity
  pub waits : s.acker ≡ acking

Step-IsStalled : {s t : System} → Step s t → IsStalled s → IsStalled t
Step-IsStalled (calls_back a) v = ground arith
Step-IsStalled (enters a b) v = ground arith
Step-IsStalled (takes report a b) v = ground arith
Step-IsStalled (reports a b) v = ground arith
Step-IsStalled (generator_returns a b) v = ground arith
Step-IsStalled (receives a) v = ground arith
Step-IsStalled (sends a b) v = ground arith
Step-IsStalled (reads a) v = ground arith
Step-IsStalled (reader_returns a b) v = ground arith
Step-IsStalled cancels v = ground arith

-- From a stopped state, as many further callbacks as the channel has room for come through, and the
-- next one does not.
fills :
    (room : ℕ) (s : System)
    → s.pending + room ≡ capacity
    → IsStopped s
    → (t : System) × Steps Step s t × IsStalled t
fills zero s full stopped =
    elim s.acker as (λ place. s.acker ≡ place → (t : System) × Steps Step s t × IsStalled t) [
      | free ↦ λ is. (
        _,
        later here (calls_back is),
        record { stopped = stopped; full = omega arith; waits = refl },
      )
      | acking ↦ λ is. (s, here, record { stopped = stopped; full = omega arith; waits = is })
    ]
      refl
fills (suc room) s left stopped =
    elim s.acker as (λ place. s.acker ≡ place → (t : System) × Steps Step s t × IsStalled t) [
      | free ↦ λ is.
          let one = later (later here (calls_back is)) (enters refl (omega arith)) in
          let (t, more, stalled) = fills room _ (omega arith) stopped in
          (t, append one more, stalled)
      | acking ↦ λ is.
          let one = later here (enters is (omega arith)) in
          let (t, more, stalled) = fills room _ (omega arith) stopped in
          (t, append one more, stalled)
    ]
      refl

abbrev pub GetsIn : System → Type 0
GetsIn s = (t : System) × Steps Step s t × (t.acker ≡ free)

selecting-GetsIn :
    (s : System)
    → s.acker ≡ acking
    → s.pending ≤ capacity
    → s.generator ≡ GeneratorPlace.selecting
    → GetsIn s
selecting-GetsIn s waits room selects = elim (dec_lt s.pending capacity) [
  | yes fits ↦ (_, later here (enters waits fits), refl)
  | no full ↦
      (_, later (later here (takes false selects (omega arith))) (enters waits (omega arith)), refl)
]

meeting-GetsIn :
    (s : System)
    → s.acker ≡ acking
    → s.pending ≤ capacity
    → s.generator ≡ reporting
    → s.reader ≡ ReaderPlace.selecting
    → GetsIn s
meeting-GetsIn s waits room reporting_is reader_is =
    let one = later here (reports reporting_is reader_is) in
    let (t, more, entered) = selecting-GetsIn _ waits room refl in (t, append one more, entered)

reporting-GetsIn :
    (s : System)
    → s.acker ≡ acking
    → s.pending ≤ capacity
    → s.generator ≡ reporting
    → s.reader ≢ ReaderPlace.returned
    → GetsIn s
reporting-GetsIn s waits room is on =
    elim s.reader as (λ place. s.reader ≡ place → GetsIn s) [
      | ReaderPlace.selecting ↦ λ at. meeting-GetsIn s waits room is at
      | reading ↦ λ at.
          let one = later here (reads at) in
          let (t, more, entered) = meeting-GetsIn _ waits room is refl in
          (t, append one more, entered)
      | ReaderPlace.returned ↦ λ at. absurd (on at)
    ]
      refl

going-GetsIn :
    (s : System)
    → s.acker ≡ acking
    → s.pending ≤ capacity
    → s.generator ≢ GeneratorPlace.returned
    → s.reader ≢ ReaderPlace.returned
    → GetsIn s
going-GetsIn s waits room generates on =
    elim s.generator as (λ place. s.generator ≡ place → GetsIn s) [
      | GeneratorPlace.selecting ↦ λ is. selecting-GetsIn s waits room is
      | reporting ↦ λ is. reporting-GetsIn s waits room is on
      | GeneratorPlace.returned ↦ λ is. absurd (generates is)
    ]
      refl

abbrev pub StaysAcking : System → Type 0
StaysAcking t = (u : System) → Steps Step t u → u.acker ≡ acking

-- In every state that is reached: while the context is not cancelled, a callback that waits at the
-- channel of acknowledged packets can still get in; and once the generator has returned, or waits
-- with a report for a reader that has returned, further callbacks may lead to a state in which one
-- waits at the channel, and with it quic-go's goroutine, whatever happens next.
pub Steps-GetsIn :
    (s : System)
    → Steps Step initial s
    → (s.cancelled ≡ false → s.acker ≡ acking → GetsIn s)
      × (IsStopped s → (t : System) × Steps Step s t × StaysAcking t)
Steps-GetsIn s steps =
    let v =
      Steps-keeps IsValid (λ s t. Step-IsValid) steps
        (record { room = omega arith; generates = inr (λ e. cc e); reads_on = inr (λ e. cc e) }) in
    (
      λ going waits. elim v.generates [
        | inl cancelled ↦ absurd (ground arith)
        | inr generates ↦ elim v.reads_on [
          | inl cancelled ↦ absurd (ground arith)
          | inr on ↦ going-GetsIn s waits v.room generates on
        ]
      ],
      λ stopped.
          let room = v.room in
          let (t, more, stalled) = fills (capacity - s.pending) s (omega arith) stopped in
          (t, more, λ u rest. (Steps-keeps IsStalled (λ s t. Step-IsStalled) rest stalled).waits),
    )
