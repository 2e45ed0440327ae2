-- ===== src/Scream/Locking.antt =====
-- scream/sender_interceptor.go: the three goroutines that share one stream, with the mutex
-- `rtpStreamsMu` and the unbuffered channels `newFeedback` and `newFrame`, as a step relation. They
-- are the reader of BindRTCPReader, the writer of BindLocalStream and `loopPacingTimer`.
--
-- The mutex `m` is left out: a goroutine holds it for one call of the congestion control, and waits
-- for nothing meanwhile. What the queue holds and what the congestion control answers is left open.
pub mod Invariant
pub mod Progress
pub mod Deadlock
pub mod Closing
use rtp_over_quic.Base.{◌≡◌, Bool, true, false, if◌then◌else◌}

-- Who holds `rtpStreamsMu`.
pub data Holder : Type 0 where
  nobody by_reader by_writer by_pacer : Holder

-- The reader: before `Lock` for the next SSRC; before the lookup; before `newFeedback <-`; before
-- `Unlock`.
pub data ReaderPlace : Type 0 where
  reading looking_up sending_feedback leaving : ReaderPlace

-- The writer: before a call; before the map is written; before `go`; before `newFrame <-`.
pub data WriterPlace : Type 0 where
  idle registering starting sending_frame : WriterPlace

-- The pacing loop: not started; before `Lock`; before `Unlock`; at the `select`; in the inner loop;
-- returned.
pub data PacerPlace : Type 0 where
  unborn locking holding selecting pacing returned : PacerPlace

-- `registered`: the stream is in the map. `initialized`: the writer's variable. `timer_set`: the
-- loop's variable. `closed`: the channel `close` is closed.
pub record System : Type 0 where
  pub holder : Holder
  pub registered : Bool
  pub initialized : Bool
  pub timer_set : Bool
  pub closed : Bool
  pub reader : ReaderPlace
  pub writer : WriterPlace
  pub pacer : PacerPlace

-- The stream is bound, and nothing has been sent.
abbrev pub initial : System
initial = record {
  holder = nobody;
  registered = false;
  initialized = false;
  timer_set = false;
  closed = false;
  reader = reading;
  writer = idle;
  pacer = unborn;
}

-- Behind the `select`: back to it where a timer is set or the queue is empty, else the inner loop.
abbrev pub woken : Bool → Bool → PacerPlace
woken timer_set queued = if timer_set then selecting else (if queued then pacing else selecting)

-- One step of one goroutine, or of two that meet at a channel.
pub data Step (s : System) : System → Type 0 where
  reader_locks :
      s.reader ≡ reading
      → s.holder ≡ nobody
      → Step s (record s { holder = by_reader; reader = looking_up })
  reader_finds :
      s.reader ≡ looking_up → s.registered ≡ true → Step s (record s { reader = sending_feedback })
  reader_misses :
      s.reader ≡ looking_up → s.registered ≡ false → Step s (record s { reader = leaving })
  feedback_meets :
      (queued : Bool)
      → s.reader ≡ sending_feedback
      → s.pacer ≡ selecting
      → Step s (record s { reader = leaving; pacer = woken s.timer_set queued })
  reader_unlocks : s.reader ≡ leaving → Step s (record s { holder = nobody; reader = reading })
  writer_locks :
      s.writer ≡ idle
      → s.initialized ≡ false
      → s.holder ≡ nobody
      → Step s (record s { holder = by_writer; writer = registering })
  writer_registers :
      s.writer ≡ registering
      → Step s (record s { holder = nobody; registered = true; writer = starting })
  writer_starts :
      s.writer ≡ starting
      → Step s (record s { initialized = true; writer = sending_frame; pacer = locking })
  writer_enqueues :
      s.writer ≡ idle → s.initialized ≡ true → Step s (record s { writer = sending_frame })
  frame_meets :
      (queued : Bool)
      → s.writer ≡ sending_frame
      → s.pacer ≡ selecting
      → Step s (record s { writer = idle; pacer = woken s.timer_set queued })
  pacer_locks :
      s.pacer ≡ locking
      → s.holder ≡ nobody
      → Step s (record s { holder = by_pacer; pacer = holding })
  pacer_unlocks : s.pacer ≡ holding → Step s (record s { holder = nobody; pacer = selecting })
  timer_fires :
      (queued : Bool)
      → s.pacer ≡ selecting
      → s.timer_set ≡ true
      → Step s (record s { timer_set = false; pacer = woken false queued })
  pacer_rests :
      (timer_set : Bool)
      → s.pacer ≡ pacing
      → Step s (record s { timer_set = timer_set; pacer = selecting })
  pacer_returns : s.pacer ≡ selecting → s.closed ≡ true → Step s (record s { pacer = returned })
  -- `Close`, by whoever calls it.
  closes : s.closed ≡ false → Step s (record s { closed = true })
