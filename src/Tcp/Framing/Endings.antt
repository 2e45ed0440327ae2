-- ===== src/Tcp/Framing/Endings.antt =====
-- When the reading loops are not left, and messages that do not fit their length.
use rtp_over_quic.Base.{
  ℕ, zero, suc, ◌+◌, ◌*◌, ◌≤◌, ◌≡◌, ◌≢◌, refl, sym, ◌∙◌, Bool, false, List, [], ◌∷◌, leb, length,
  arith, length-take, inl, inr, ◌⊎◌, Bool-cases,
}
use mathlib.Core.Path.{subst}
use rtp_over_quic.Tcp.Framing.{
  Conn, Ending, eof, net_closed, other, read_full, Turn, returns, panics, continues, delivers,
  prefix_turn, body_turn, receive_turn, network_turn, turns, after_turn, receive, read_from_network,
  Status, looping, ReadError, eof_stops, closed_stops, error_of,
}

-- The loop goes on, on a connection with the same ending.
abbrev GoesOn : Ending → Turn → Type 0
GoesOn ending returns = ⊥
GoesOn ending panics = ⊥
GoesOn ending (continues c) = c.ending ≡ ending
GoesOn ending (delivers p c) = c.ending ≡ ending

-- No error of the connection stops the loop.
abbrev IsSoft : (ReadError → Bool) → Ending → Type 0
IsSoft stops ending = (bytes : List ℕ) → stops (error_of bytes ending) ≡ false

abbrev IsPassed : (ReadError → Bool) → List ℕ ⊎ ReadError → Type 0
IsPassed stops (inl bytes) = Unit {0}
IsPassed stops (inr e) = stops e ≡ false

read_full-IsPassed :
    (stops : ReadError → Bool) (n : ℕ) (c : Conn)
    → IsSoft stops c.ending
    → IsPassed stops (read_full n c).0 × ((read_full n c).1.ending ≡ c.ending)
unfolding read_full
read_full-IsPassed stops n c soft = elim (Bool-cases (leb n (length c.bytes))) [
  | inl e ↦ rw e (tt, refl)
  | inr e ↦ rw e (soft c.bytes, refl)
]

body_turn-GoesOn :
    (stops : ReadError → Bool) (r : List ℕ ⊎ ReadError) (c : Conn) (ending : Ending)
    → IsPassed stops r
    → c.ending ≡ ending
    → GoesOn ending (body_turn stops (r, c))
body_turn-GoesOn stops (inl buf) c ending passed e = e
body_turn-GoesOn stops (inr x) c ending passed e = rw passed e

-- A prefix of two bytes has a length.
abbrev IsLong : List ℕ ⊎ ReadError → Type 0
IsLong (inl bytes) = 2 ≤ length bytes
IsLong (inr e) = Unit {0}

prefix_turn-GoesOn :
    (stops : ReadError → Bool) (r : List ℕ ⊎ ReadError) (c : Conn)
    → IsSoft stops c.ending
    → IsPassed stops r
    → IsLong r
    → GoesOn c.ending (prefix_turn stops (r, c))
prefix_turn-GoesOn stops (inr x) c soft passed long = rw passed refl
prefix_turn-GoesOn stops (inl []) c soft passed long = absurd (omega arith)
prefix_turn-GoesOn stops (inl (a ∷ [])) c soft passed long = absurd (omega arith)
prefix_turn-GoesOn stops (inl (a ∷ b ∷ bytes)) c soft passed long =
    let (passed', e) = read_full-IsPassed stops (a * 256 + b) c soft in
    body_turn-GoesOn stops (read_full (a * 256 + b) c).0 (read_full (a * 256 + b) c).1 c.ending
      passed' e

read_full-IsLong : (c : Conn) → IsLong (read_full 2 c).0
unfolding read_full
read_full-IsLong c = elim (Bool-cases (leb 2 (length c.bytes))) [
  | inl e ↦ rw e (ground (arith, length-take 2 c.bytes))
  | inr e ↦ rw e tt
]

turn-GoesOn :
    (stops : ReadError → Bool) (c : Conn)
    → IsSoft stops c.ending
    → GoesOn c.ending (prefix_turn stops (read_full 2 c))
turn-GoesOn stops c soft =
    let (passed, e) = read_full-IsPassed stops 2 c soft in
    let c' = (read_full 2 c).1 in
    subst (λ ending. GoesOn ending (prefix_turn stops (read_full 2 c))) e
      (prefix_turn-GoesOn stops (read_full 2 c).0 c'
        (subst (λ ending. IsSoft stops ending) (sym e) soft) passed (read_full-IsLong c))

after_turn-looping :
    (ending : Ending) (t : Turn) (more : Conn → List (List ℕ) × Status)
    → GoesOn ending t
    → ((c : Conn) → c.ending ≡ ending → (more c).1 ≡ looping)
    → (after_turn t more).1 ≡ looping
after_turn-looping ending returns more h loops = absurd h
after_turn-looping ending panics more h loops = absurd h
after_turn-looping ending (continues c) more h loops = loops c h
after_turn-looping ending (delivers p c) more h loops = loops c h

turns-looping :
    (turn : Conn → Turn) (ending : Ending)
    → ((c : Conn) → c.ending ≡ ending → GoesOn ending (turn c))
    → (k : ℕ) (c : Conn) → c.ending ≡ ending
    → (turns turn k c).1 ≡ looping
unfolding turns
turns-looping turn ending keep zero c e = refl
turns-looping turn ending keep (suc k) c e =
    after_turn-looping ending (turn c) (turns turn k) (keep c e) (turns-looping turn ending keep k)

closed-IsSoft : (ending : Ending) → ending ≢ net_closed → IsSoft closed_stops ending
closed-IsSoft eof h [] = refl
closed-IsSoft eof h (b ∷ bs) = refl
closed-IsSoft net_closed h bytes = absurd (h refl)
closed-IsSoft other h bytes = refl

eof-IsSoft : (ending : Ending) → ending ≢ eof → IsSoft eof_stops ending
eof-IsSoft eof h bytes = absurd (h refl)
eof-IsSoft net_closed h bytes = refl
eof-IsSoft other h bytes = refl

-- Unless the sender closes the connection itself, its reading loop is never left: at the end of the
-- stream, where the peer has closed the connection, each turn fails at once and the loop goes on,
-- for any number of turns.
read_from_network-looping :
    (k : ℕ) (c : Conn) → c.ending ≢ net_closed → (read_from_network k c).1 ≡ looping
unfolding read_from_network
read_from_network-looping k c h =
    turns-looping network_turn c.ending
      (λ c' e.
        unfold network_turn in
        subst (λ ending. GoesOn ending (prefix_turn closed_stops (read_full 2 c'))) e
          (turn-GoesOn closed_stops c' (closed-IsSoft c'.ending (λ p. h (sym e ∙ p)))))
      k c refl

-- The reading loop of the receiver is left at the end of the stream only: after any other error, a
-- closed connection among them, it goes on for any number of turns.
receive-looping : (k : ℕ) (c : Conn) → c.ending ≢ eof → (receive k c).1 ≡ looping
unfolding receive
receive-looping k c h =
    turns-looping receive_turn c.ending
      (λ c' e.
        unfold receive_turn in
        subst (λ ending. GoesOn ending (prefix_turn eof_stops (read_full 2 c'))) e
          (turn-GoesOn eof_stops c' (eof-IsSoft c'.ending (λ p. h (sym e ∙ p)))))
      k c refl
