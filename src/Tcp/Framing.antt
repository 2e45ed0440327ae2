-- ===== src/Tcp/Framing.antt =====
-- tcp/sender.go and tcp/receiver.go: the frames that `NewMediaStream` and `WriteRTCP` write, and
-- the loops `receive` and `readFromNetwork` that read them. The connection is what it will still
-- deliver: a list of bytes, and what a read answers after them.
pub mod Trip
pub mod Endings
use Prim.Native.Nat.{min}
use rtp_over_quic.Base.{
  ℕ, zero, suc, ◌+◌, ◌-◌, ◌%◌, Bool, true, false, List, [], ◌∷◌, ◌++◌, Option, none, some, Outcome,
  ok, err, panic, ◌>>=◌, ltb, leb, ◌==◌, ◌⊎◌, inl, inr, if◌then◌else◌, length, take, drop,
}
use rtp_over_quic.Base.Bytes.{put_uint16, uint16}
use rtp_over_quic.Pion.{RtpLib}

-- The frame that `conn.Write` gets: `uint16(len(msg))`, then the message.
unfoldable pub frame : List ℕ → List ℕ
frame msg = put_uint16 (length msg % 65536) ++ msg

-- The writer of `NewMediaStream`: the bytes that it hands to the connection.
unfoldable pub media_write : (r : RtpLib) → r.Header → List ℕ → Outcome (List ℕ)
unfolding frame
media_write r header payload = do header_buf ← r.marshal header; ok (frame (header_buf ++ payload))

-- `WriteRTCP`, on the result of `rtcp.Marshal`.
unfoldable pub write_rtcp : Outcome (List ℕ) → Outcome (List ℕ)
unfolding frame
write_rtcp marshalled = do buf ← marshalled; ok (frame buf)

-- How a connection ends: by the peer, by `Close`, or by an error that each read repeats.
pub data Ending : Type 0 where
  eof net_closed other : Ending

-- The error of `io.ReadFull` where fewer bytes are left than it wants: EOF only if it read none.
pub data ReadError : Type 0 where
  is_eof unexpected_eof is_closed is_other : ReadError

pub record Conn : Type 0 where
  pub bytes : List ℕ
  pub ending : Ending

abbrev pub error_of : List ℕ → Ending → ReadError
error_of [] eof = is_eof
error_of (b ∷ bs) eof = unexpected_eof
error_of _ net_closed = is_closed
error_of _ other = is_other

-- `io.ReadFull(conn, buf)` with `n` bytes of space. A failed call has used up what was left.
unfoldable pub read_full : ℕ → Conn → (List ℕ ⊎ ReadError) × Conn
read_full n c =
    if leb n (length c.bytes)
    then (inl (take n c.bytes), record c { bytes = drop n c.bytes })
    else (inr (error_of c.bytes c.ending), record c { bytes = [] })

-- One turn of a reading loop: `return`, `continue`, a frame, or a panic.
pub data Turn : Type 0 where
  returns panics : Turn
  continues : Conn → Turn
  delivers : List ℕ → Conn → Turn

-- `errors.Is(err, io.EOF)` and `errors.Is(err, net.ErrClosed)`.
abbrev pub eof_stops : ReadError → Bool
eof_stops is_eof = true
eof_stops _ = false

abbrev pub closed_stops : ReadError → Bool
closed_stops is_closed = true
closed_stops _ = false

-- The frame, after its length; then the length, before it.
abbrev pub body_turn : (ReadError → Bool) → (List ℕ ⊎ ReadError) × Conn → Turn
body_turn stops (inl buf, c) = delivers buf c
body_turn stops (inr e, c) = if stops e then returns else continues c

abbrev pub prefix_turn : (ReadError → Bool) → (List ℕ ⊎ ReadError) × Conn → Turn
prefix_turn stops (inl prefix, c) = elim (uint16 prefix) [
  | none ↦ panics
  | some n ↦ body_turn stops (read_full n c)
]
prefix_turn stops (inr e, c) = if stops e then returns else continues c

-- receiver.go's `receive`.
unfoldable pub receive_turn : Conn → Turn
unfolding read_full
receive_turn c = prefix_turn eof_stops (read_full 2 c)

-- sender.go's `readFromNetwork`, up to the frame in `tmp`. What becomes of `tmp` is in
-- Tcp/Feedback.
unfoldable pub network_turn : Conn → Turn
unfolding read_full
network_turn c = prefix_turn closed_stops (read_full 2 c)

pub data Status : Type 0 where
  looping returned panicked : Status

abbrev pub after_turn : Turn → (Conn → List (List ℕ) × Status) → List (List ℕ) × Status
after_turn returns more = ([], returned)
after_turn panics more = ([], panicked)
after_turn (continues c) more = more c
after_turn (delivers p c) more = let (ps, status) = more c in (p ∷ ps, status)

-- The frames that a number of turns deliver, and whether the loop is left.
unfoldable pub turns : (Conn → Turn) → ℕ → Conn → List (List ℕ) × Status
turns turn zero c = ([], looping)
turns turn (suc k) c = let more = turns turn k in after_turn (turn c) more

unfoldable pub receive : ℕ → Conn → List (List ℕ) × Status
unfolding turns receive_turn
receive = turns receive_turn

unfoldable pub read_from_network : ℕ → Conn → List (List ℕ) × Status
unfolding turns network_turn
read_from_network = turns network_turn
