-- ===== src/Cmd/DataSource.antt =====
-- cmd/send.go, `startQUICSender`: the goroutine behind `--stream`, which writes random bytes to a
-- data stream and never closes it.
use rtp_over_quic.Base.{
  ℕ, ◌≡◌, refl, ap, map, List, [], ◌∷◌, ◌++◌, Option, none, some, String, ◌⊎◌, inl, inr, take,
}

-- How the goroutine stands: in its loop, or returned with one of its two messages.
pub data Exit : Type 0 where
  sending returns_unread returns_unsent : Exit

-- What the calls of a round return: `rand.Read` an error, or none, with the bytes that are in the
-- buffer of 1200 bytes afterwards; `ds.Write` the number of bytes that it has taken, and its error.
abbrev Round : Type 0
Round = (String ⊎ List ℕ) × (ℕ × Option String)

-- The bytes that each round puts on the stream: a write that fails may have taken some of them.
unfoldable send_random : List Round → List (List ℕ) × Exit
send_random [] = ([], sending)
send_random ((inl e, written) ∷ rounds) = ([], returns_unread)
send_random ((inr buf, (n, some e)) ∷ rounds) = (take n buf ∷ [], returns_unsent)
send_random ((inr buf, (n, none)) ∷ rounds) =
    let (chunks, exit) = send_random rounds in (take n buf ∷ chunks, exit)

-- A round whose calls succeed, with the buffer and the number of its bytes that are written.
abbrev through : List ℕ × ℕ → Round
through (buf, n) = (inr buf, (n, none))

abbrev written : List ℕ × ℕ → List ℕ
written (buf, n) = take n buf

-- The goroutine ends with the first write that fails, and the bytes that this write has taken are
-- behind those of the writes before it.
send_random-through :
    (bufs : List (List ℕ × ℕ)) (buf : List ℕ) (n : ℕ) (e : String) (more : List Round)
    → send_random (map through bufs ++ (inr buf, (n, some e)) ∷ more)
      ≡ (map written bufs ++ take n buf ∷ [], returns_unsent)
unfolding send_random
send_random-through [] buf n e more = refl
send_random-through ((first, k) ∷ bufs) buf n e more =
    ap (λ (r : List (List ℕ) × Exit). let (chunks, exit) = r in (take k first ∷ chunks, exit))
      (send_random-through bufs buf n e more)
