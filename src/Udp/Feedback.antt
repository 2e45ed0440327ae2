-- ===== src/Udp/Feedback.antt =====
-- udp/sender.go, `readFromNetwork`, and rtp/rtcp.go, `ReadRTCP`: two goroutines and one buffer. The
-- slice that goes over the channel is the buffer itself, which the next read overwrites.
use rtp_over_quic.Base.{
  ℕ, ◌≤◌, ◌≡◌, refl, ap, List, [], ◌∷◌, ◌++◌, map, Option, none, some, length, take, drop,
  take-append_self, take-append_le, take_all, arith,
}

-- Until the context is cancelled: what happens next. `conn.Read` returns a datagram, and the
-- `select` after it runs; the other goroutine processes the slice that it took and waits at the
-- channel again.
pub data Event : Type 0 where
  reads : List ℕ → Event
  processes : Event

-- The buffer, and the length of the slice that `ReadRTCP` has taken and not yet processed.
pub record Shared : Type 0 where
  pub buf : List ℕ
  pub taken : Option ℕ

-- A datagram is cut to the 1500 bytes of the buffer, and what is behind it stays.
abbrev overwrite : List ℕ → List ℕ → List ℕ
overwrite datagram buf = let new = take 1500 datagram in new ++ drop (length new) buf

-- `default` drops the packet where the other goroutine does not wait at the channel.
abbrev offer : ℕ → Option ℕ → Option ℕ
offer n none = some n
offer n (some m) = some m

abbrev processed : List ℕ → Option ℕ → List (List ℕ)
processed buf none = []
processed buf (some n) = take n buf ∷ []

-- The new state, and the packet that is processed.
unfoldable pub step : Shared → Event → Shared × List (List ℕ)
step s (reads datagram) = (
  record { buf = overwrite datagram s.buf; taken = offer (length (take 1500 datagram)) s.taken },
  [],
)
step s processes = (record s { taken = none }, processed s.buf s.taken)

unfoldable pub run : Shared → List Event → List (List ℕ)
unfolding step
run s [] = []
run s (e ∷ es) = let (s', out) = step s e in out ++ run s' es

abbrev in_turn : List (List ℕ) → List Event
in_turn [] = []
in_turn (d ∷ ds) = reads d ∷ processes ∷ in_turn ds

-- If every datagram is processed before the next one is read, each is processed once and in order,
-- cut to 1500 bytes, whatever was in the buffer.
run-in_turn :
    (buf : List ℕ) (ds : List (List ℕ))
    → run (record { buf = buf; taken = none }) (in_turn ds) ≡ map (take 1500) ds
unfolding run
run-in_turn buf [] = refl
run-in_turn buf (d ∷ ds) =
    rw (take-append_self (take 1500 d) (drop (length (take 1500 d)) buf))
      (ap (◌∷◌ (take 1500 d)) (run-in_turn (overwrite d buf) ds))

-- If a second datagram of at most 1500 bytes, not shorter than the first, is read before the first
-- is processed, then what is processed is the beginning of the second one, as long as the first;
-- the first datagram is lost.
run-overwritten :
    (buf first second : List ℕ)
    → length first ≤ length second
    → length second ≤ 1500
    → run (record { buf = buf; taken = none }) (reads first ∷ reads second ∷ processes ∷ [])
      ≡ take (length first) second ∷ []
unfolding run
run-overwritten buf first second le small =
    rw (take_all 1500 first (omega arith), take_all 1500 second small)
      (ap (λ packet. packet ∷ []) (take-append_le (length first) second _ le))
