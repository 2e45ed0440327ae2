-- ===== src/Media/Play/Handing.antt =====
-- media/gstreamer.go, `GstreamerSource`: the goroutines around the channel `bufferCh`, which has no
-- room. They are the thread of GStreamer that calls the buffer handler, the one that calls the
-- handler of the end of the stream, `Play`, and the callers of `Stop`. The pipeline may call its
-- handlers at any time, also after `Stop`; `isKeyFrame` and the writer of the packets return or
-- panic in this model.
pub mod Fate
use rtp_over_quic.Base.{ℕ, ◌≡◌, Bool, true, false}

-- The buffer handler: not called, or at `bufferCh <- b`.
pub data HandlerPlace : Type 0 where
  free handing : HandlerPlace

-- `Play`: at its `select`; with a buffer, in `isKeyFrame` or at the writer; or returned.
pub data PlayPlace : Type 0 where
  selecting writing returned : PlayPlace

-- The program runs, or has ended in a panic: of the pipeline's error handler, of `isKeyFrame`, of a
-- send on the closed `bufferCh`, or of a second `close` at the end of the stream or in `Stop`.
pub data Health : Type 0 where
  runs error_panics key_frame_panics send_panics end_panics stop_panics : Health

-- `ended`: `bufferCh` is closed. `stopped`: `s.close` is closed.
pub record System : Type 0 where
  pub handler : HandlerPlace
  pub play : PlayPlace
  pub ended : Bool
  pub stopped : Bool
  pub health : Health

-- `Play` at its first `select`.
abbrev pub initial : System
initial = record { handler = free; play = selecting; ended = false; stopped = false; health = runs }

pub data Step (s : System) : System → Type 0 where
  calls : s.health ≡ runs → s.handler ≡ free → Step s (record s { handler = handing })
  hands :
      s.health ≡ runs
      → s.handler ≡ handing
      → s.play ≡ selecting
      → s.ended ≡ false
      → Step s (record s { handler = free; play = writing })
  -- A send on a closed channel.
  hands_closed :
      s.health ≡ runs
      → s.handler ≡ handing
      → s.ended ≡ true
      → Step s (record s { health = send_panics })
  writes : s.health ≡ runs → s.play ≡ writing → Step s (record s { play = selecting })
  -- An error of `Unmarshal` or of the writer.
  fails : s.health ≡ runs → s.play ≡ writing → Step s (record s { play = returned })
  leaves_stopped :
      s.health ≡ runs
      → s.play ≡ selecting
      → s.stopped ≡ true
      → Step s (record s { play = returned })
  leaves_ended :
      s.health ≡ runs → s.play ≡ selecting → s.ended ≡ true → Step s (record s { play = returned })
  -- The handler of the end of the stream; a second `close` panics.
  ends : s.health ≡ runs → s.ended ≡ false → Step s (record s { ended = true })
  ends_again : s.health ≡ runs → s.ended ≡ true → Step s (record s { health = end_panics })
  -- `Stop`; a second one panics.
  stops : s.health ≡ runs → s.stopped ≡ false → Step s (record s { stopped = true })
  stops_again : s.health ≡ runs → s.stopped ≡ true → Step s (record s { health = stop_panics })
  -- The handler of the pipeline's errors only panics.
  pipeline_fails : s.health ≡ runs → Step s (record s { health = error_panics })
  -- `isKeyFrame`, on an empty VP8 buffer, or on an error of the H.264 reader.
  key_frame_fails :
      s.health ≡ runs → s.play ≡ writing → Step s (record s { health = key_frame_panics })
