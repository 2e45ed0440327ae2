-- ===== src/Scream/Locking/Invariant.antt =====
-- What holds in every state that the goroutines of a stream reach.
use rtp_over_quic.Base.{◌≡◌, ◌≢◌, true, false, arith}
use rtp_over_quic.Base.Runs.{Steps, Steps-keeps}
use rtp_over_quic.Scream.Locking.{
  by_reader, by_writer, by_pacer, reading, sending_feedback, registering, starting, sending_frame,
  unborn, holding, System, initial, Step, reader_locks, reader_finds, reader_misses, feedback_meets,
  reader_unlocks, writer_locks, writer_registers, writer_starts, writer_enqueues, frame_meets,
  pacer_locks, pacer_unlocks, timer_fires, pacer_rests, pacer_returns, closes,
}

pub record IsValid (s : System) : Type 0 where
  -- The mutex is held by exactly the goroutine that stands between `Lock` and `Unlock`.
  pub reader_holds : s.reader ≢ reading → s.holder ≡ by_reader
  pub by_the_reader : s.holder ≡ by_reader → s.reader ≢ reading
  pub writer_holds : s.writer ≡ registering → s.holder ≡ by_writer
  pub by_the_writer : s.holder ≡ by_writer → s.writer ≡ registering
  pub pacer_holds : s.pacer ≡ holding → s.holder ≡ by_pacer
  pub by_the_pacer : s.holder ≡ by_pacer → s.pacer ≡ holding
  -- A first call registers the stream, then starts the loop, then sends its frame.
  pub early : s.initialized ≡ false → s.pacer ≡ unborn
  pub born : s.pacer ≡ unborn → s.initialized ≡ false
  pub found : s.registered ≡ false → s.initialized ≡ false
  pub began : s.writer ≡ starting → s.initialized ≡ false
  pub fresh : s.writer ≡ registering → s.initialized ≡ false
  pub listed : s.writer ≡ starting → s.registered ≡ true
  pub alone : s.registered ≡ true → s.initialized ≡ false → s.writer ≡ starting
  pub framed : s.writer ≡ sending_frame → s.initialized ≡ true
  pub named : s.reader ≡ sending_feedback → s.registered ≡ true

pub Step-IsValid : {s t : System} → Step s t → IsValid s → IsValid t
Step-IsValid (reader_locks a b) v = ground arith
Step-IsValid (reader_finds a b) v = ground arith
Step-IsValid (reader_misses a b) v = ground arith
Step-IsValid (feedback_meets queued a b) v = ground arith
Step-IsValid (reader_unlocks a) v = ground arith
Step-IsValid (writer_locks a b c) v = ground arith
Step-IsValid (writer_registers a) v = ground arith
Step-IsValid (writer_starts a) v = ground arith
Step-IsValid (writer_enqueues a b) v = ground arith
Step-IsValid (frame_meets queued a b) v = ground arith
Step-IsValid (pacer_locks a b) v = ground arith
Step-IsValid (pacer_unlocks a) v = ground arith
Step-IsValid (timer_fires queued a b) v = ground arith
Step-IsValid (pacer_rests timer a) v = ground arith
Step-IsValid (pacer_returns a b) v = ground arith
Step-IsValid (closes a) v = ground arith

-- Every state that the goroutines reach from the start is valid.
pub Steps-IsValid : {s : System} → Steps Step initial s → IsValid s
Steps-IsValid steps = Steps-keeps IsValid (λ s t. Step-IsValid) steps (ground arith)
