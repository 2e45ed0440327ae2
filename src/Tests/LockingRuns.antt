-- ===== src/Tests/LockingRuns.antt =====
-- The goroutines of SCReAM's sender at a concrete sequence of steps.
use rtp_over_quic.Base.{◌≡◌, ◌≢◌, refl, ◌⊎◌, true, false}
use rtp_over_quic.Base.Runs.{Steps, here, later}
use rtp_over_quic.Scream.Locking.{
  System, initial, Step, by_reader, sending_feedback, sending_frame, locking, writer_locks,
  writer_registers, writer_starts, reader_locks, reader_finds, returned,
}
use rtp_over_quic.Scream.Locking.Progress.{CanMove, IsDead, OnlyCloses, Steps-moves}
use rtp_over_quic.Scream.Locking.Closing.{CanEnd, IsCaught, NeverEnds, Steps-ends}
use rtp_over_quic.Scream.Locking.Deadlock.{StaysDoomed, reached-IsDoomed}

-- The first frame is written, and the pacing loop is to look its stream up.
abbrev started : System
started = record initial {
  registered = true;
  initialized = true;
  writer = sending_frame;
  pacer = locking;
}

abbrev started_steps : Steps Step initial started
started_steps =
    later (later (later here (writer_locks refl refl refl)) (writer_registers refl))
      (writer_starts refl)

-- Then a report for the stream is read.
abbrev dead : System
dead = record started { holder = by_reader; reader = sending_feedback }

abbrev dead_steps : Steps Step initial dead
dead_steps = later (later started_steps (reader_locks refl refl)) (reader_finds refl refl)

Steps-moves_example : CanMove dead ⊎ (IsDead dead × OnlyCloses dead)
Steps-moves_example = Steps-moves dead dead_steps

reached-IsDoomed_example : (t : System) × Steps Step started t × StaysDoomed t
reached-IsDoomed_example = reached-IsDoomed started started_steps refl refl refl refl

Steps-ends_example :
    (CanEnd dead ⊎ IsCaught dead)
    × (IsCaught dead → NeverEnds dead)
    × (dead.initialized ≡ false → dead.pacer ≢ returned)
Steps-ends_example = Steps-ends dead dead_steps
