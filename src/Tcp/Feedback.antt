-- ===== src/Tcp/Feedback.antt =====
-- tcp/sender.go, `readFromNetwork`, behind the frames that it reads, and rtp/rtcp.go, `ReadRTCP`:
-- two goroutines, an unbuffered channel and one buffer of 1500 bytes. The slice that goes over the
-- channel is the buffer itself, into which the loop copies the next frame while the other goroutine
-- may still process the slice.
pub mod Overlaid
use rtp_over_quic.Base.{ℕ, List, [], ◌∷◌, ◌++◌, Option, none, some, length, take, drop}

-- Until the context is cancelled: the loop reads and copies a frame, and then waits at the channel;
-- the goroutines meet there; `ReadRTCP` processes the slice, at one moment.
pub data Event : Type 0 where
  copies meets processes : Event

-- The frames that are still to be read; the buffer; and the lengths of the slice with which the
-- loop waits at the channel, and of the one that `ReadRTCP` has taken.
pub record Shared : Type 0 where
  pub frames : List (List ℕ)
  pub buf : List ℕ
  pub offered : Option ℕ
  pub taken : Option ℕ

-- `n := copy(buf, tmp)` copies no more than the buffer holds.
abbrev pub cut : List ℕ → List ℕ
cut tmp = take 1500 tmp

-- What is behind the copied bytes stays.
abbrev pub copied : List ℕ → List ℕ → List ℕ
copied tmp buf = cut tmp ++ drop (length (cut tmp)) buf

-- The new state, and the report that is processed. An event happens only where its goroutines can
-- make it.
unfoldable pub step : Shared → Event → Shared × List (List ℕ)
step s copies = elim s.offered [
  | some n ↦ (s, [])
  | none ↦ elim s.frames [
    | [] ↦ (s, [])
    | tmp ∷ frames ↦ (
      record {
        frames = frames;
        buf = copied tmp s.buf;
        offered = some (length (cut tmp));
        taken = s.taken;
      },
      [],
    )
  ]
]
step s meets = elim s.taken [
  | some n ↦ (s, [])
  | none ↦ (record s { offered = none; taken = s.offered }, [])
]
step s processes = elim s.taken [
  | none ↦ (s, [])
  | some n ↦ (record s { taken = none }, take n s.buf ∷ [])
]

-- The reports that are processed.
unfoldable pub run : Shared → List Event → List (List ℕ)
unfolding step
run s [] = []
run s (e ∷ es) = let (s', out) = step s e in out ++ run s' es

-- Before the first frame, with what `make` or an earlier frame left in the buffer.
abbrev pub waiting : List (List ℕ) → List ℕ → Shared
waiting frames buf = record { frames = frames; buf = buf; offered = none; taken = none }
