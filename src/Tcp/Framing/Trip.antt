-- ===== src/Tcp/Framing/Trip.antt =====
-- What the peer reads of the frames that were written.
use rtp_over_quic.Base.{
  take-append_le, ℕ, suc, ◌+◌, ◌*◌, ◌%◌, ◌≤◌, ◌<◌, ◌≡◌, refl, ap, ◌∙◌, Bool, List, [], ◌∷◌, ◌++◌,
  map, le→leb, lt→leb, length, take, All, arith, length-append, take-append_self, drop-append_self,
  inl, inr,
}
use rtp_over_quic.Base.Bytes.{put_uint16}
use rtp_over_quic.Tcp.Framing.{
  frame, Conn, Ending, eof, read_full, Turn, delivers, prefix_turn, body_turn, receive_turn,
  network_turn, turns, receive, read_from_network, Status, returned, ReadError, eof_stops,
  closed_stops, error_of,
}
use mathlib.Core.List.{append_assoc, append-nil}

abbrev pub frames : List (List ℕ) → List ℕ
frames [] = []
frames (m ∷ ms) = frame m ++ frames ms

abbrev pub IsFrameable : List ℕ → Type 0
IsFrameable m = length m < 65536

read_full-append :
    (front rest : List ℕ) (ending : Ending)
    → read_full (length front) (record { bytes = front ++ rest; ending = ending })
      ≡ (inl front, record { bytes = rest; ending = ending })
unfolding read_full
read_full-append front rest ending = rw (
  le→leb (length front) (length (front ++ rest)) (omega (arith, length-append front rest)),
  take-append_self front,
  drop-append_self front,
)

-- Past the length of a frame.
prefix_turn-frame :
    (stops : ReadError → Bool) (m rest : List ℕ) (ending : Ending)
    → prefix_turn stops (read_full 2 (record { bytes = frame m ++ rest; ending = ending }))
      ≡ body_turn stops
          (read_full (length m % 65536) (record { bytes = m ++ rest; ending = ending }))
unfolding frame
prefix_turn-frame stops m rest ending =
    let n = length m % 65536 in
    rw (read_full-append (put_uint16 n) (m ++ rest) ending) (
      ap (λ k. body_turn stops (read_full k (record { bytes = m ++ rest; ending = ending })))
        (omega arith))

prefix_turn-delivers :
    (stops : ReadError → Bool) (m rest : List ℕ) (ending : Ending)
    → IsFrameable m
    → prefix_turn stops (read_full 2 (record { bytes = frame m ++ rest; ending = ending }))
      ≡ delivers m (record { bytes = rest; ending = ending })
prefix_turn-delivers stops m rest ending h =
    let same : length m % 65536 ≡ length m = omega arith in
    rw (prefix_turn-frame stops m rest ending, same, read_full-append m rest ending)

receive_turn-frame :
    (m rest : List ℕ) (ending : Ending)
    → IsFrameable m
    → receive_turn (record { bytes = frame m ++ rest; ending = ending })
      ≡ delivers m (record { bytes = rest; ending = ending })
unfolding receive_turn
receive_turn-frame = prefix_turn-delivers eof_stops

network_turn-frame :
    (m rest : List ℕ) (ending : Ending)
    → IsFrameable m
    → network_turn (record { bytes = frame m ++ rest; ending = ending })
      ≡ delivers m (record { bytes = rest; ending = ending })
unfolding network_turn
network_turn-frame = prefix_turn-delivers closed_stops

abbrev pub conn : List ℕ → Ending → Conn
conn bytes ending = record { bytes = bytes; ending = ending }

-- The packets of the frames first, then those of what follows the frames.
turns-frames :
    (turn : Conn → Turn) (got : List ℕ → List ℕ) (ending : Ending)
    → ((m rest : List ℕ)
        → IsFrameable m
        → turn (conn (frame m ++ rest) ending) ≡ delivers (got m) (conn rest ending))
    → (ms : List (List ℕ)) (k : ℕ) (rest : List ℕ) → All IsFrameable ms
    → turns turn (length ms + k) (conn (frames ms ++ rest) ending)
      ≡ (let (ps, status) = turns turn k (conn rest ending) in (map got ms ++ ps, status))
unfolding turns
turns-frames turn got ending one [] k rest fit =
    let e : 0 + k ≡ k = omega arith in ap (λ n. turns turn n (conn rest ending)) e
turns-frames turn got ending one (m ∷ ms) k rest (fm, fms) =
    let e : suc (length ms) + k ≡ suc (length ms + k) = omega arith in
    rw (
      e,
      append_assoc (frame m),
      turns,
      one m (frames ms ++ rest) fm,
      turns-frames turn got ending one ms k rest fms,
    )

map_self {ℓ} : {A : Type ℓ} (xs : List A) → map (λ x. x) xs ≡ xs
map_self [] = refl
map_self (x ∷ xs) = ap (◌∷◌ x) (map_self xs)

receive-frames :
    (ms : List (List ℕ)) (k : ℕ) (rest : List ℕ) (ending : Ending)
    → All IsFrameable ms
    → receive (length ms + k) (conn (frames ms ++ rest) ending)
      ≡ (let (ps, status) = receive k (conn rest ending) in (ms ++ ps, status))
unfolding receive
receive-frames ms k rest ending fit =
    turns-frames receive_turn (λ m. m) ending (λ m rest'. receive_turn-frame m rest' ending) ms k
      rest fit
    ∙ rw (map_self ms)

read_full_short :
    (n : ℕ) (part : List ℕ) (ending : Ending)
    → length part < n
    → read_full n (conn part ending) ≡ (inr (error_of part ending), conn [] ending)
unfolding read_full
read_full_short n part ending h = rw (lt→leb n (length part) h)

-- The two bytes of the length, and a part of the message.
part_turn :
    (a b : ℕ) (part : List ℕ)
    → length part < a * 256 + b
    → receive_turn (conn (a ∷ b ∷ part) eof)
      ≡ body_turn eof_stops (inr (error_of part eof), conn [] eof)
unfolding receive_turn
part_turn a b part h =
    rw (read_full-append (a ∷ b ∷ []) part eof, read_full_short (a * 256 + b) part eof h)

-- A part of a frame is shorter than its length says.
inside :
    (m : List ℕ) (a b : ℕ) (part : List ℕ) (x : ℕ) (back : List ℕ)
    → IsFrameable m
    → frame m ≡ a ∷ b ∷ (part ++ x ∷ back)
    → length part < a * 256 + b
unfolding frame
inside m a b part x back h e = ground (arith, length-append part (x ∷ back), ap length e)

-- A proper prefix of a frame delivers nothing, and then the loop is left.
receive-cut :
    (m cut : List ℕ) (x : ℕ) (back : List ℕ)
    → IsFrameable m
    → frame m ≡ cut ++ x ∷ back
    → receive 2 (conn cut eof) ≡ ([], returned)
unfolding receive frame
receive-cut m [] x back h e = refl
receive-cut m (a ∷ []) x back h e = refl
receive-cut m (a ∷ b ∷ []) x back h e = rw (part_turn a b [] (inside m a b [] x back h e))
receive-cut m (a ∷ b ∷ c ∷ part) x back h e =
    rw (part_turn a b (c ∷ part) (inside m a b (c ∷ part) x back h e))

-- The messages of frames of less than 65536 bytes are read back, one packet for one message and in
-- order, and the loop of `receive` is left at the end of the stream, also where the stream ends in
-- the middle of a further frame, of which nothing is delivered. A turn for each message and two
-- more are enough.
pub receive-frames_cut :
    (ms : List (List ℕ)) (m cut : List ℕ) (x : ℕ) (back : List ℕ)
    → All IsFrameable ms
    → IsFrameable m
    → frame m ≡ cut ++ x ∷ back
    → receive (length ms + 2) (conn (frames ms ++ cut) eof) ≡ (ms, returned)
receive-frames_cut ms m cut x back fit fm e =
    receive-frames ms 2 cut eof fit ∙ rw (receive-cut m cut x back fm e, append-nil)

-- The sender's loop reads each RTCP message that was written behind its length, whole and in order.
pub read_from_network-frames :
    (ms : List (List ℕ)) (ending : Ending)
    → All IsFrameable ms
    → (read_from_network (length ms) (conn (frames ms) ending)).0 ≡ ms
unfolding read_from_network turns
read_from_network-frames ms ending fit =
    let e : length ms + 0 ≡ length ms = omega arith in
    rw (append-nil (frames ms), e) at
      (ap (λ (r : List (List ℕ) × Status). r.0)
        (turns-frames network_turn (λ m. m) ending (λ m rest. network_turn-frame m rest ending) ms 0
          [] fit))
    ∙ append-nil _
    ∙ map_self ms

-- Of a message of any length, the first packet that is delivered has the first bytes, as many as
-- its length modulo 65536: a message of 65536 bytes or more is cut, and what is left of it is read
-- as further frames.
receive-frame_any :
    (m rest : List ℕ) (ending : Ending)
    → (receive 1 (conn (frame m ++ rest) ending)).0 ≡ take (length m % 65536) m ∷ []
unfolding receive receive_turn
receive-frame_any m rest ending =
    let n = length m % 65536 in
    let h : n ≤ length (m ++ rest) = omega (arith, length-append m rest) in
    rw (prefix_turn-frame eof_stops m rest ending) (
      unfold read_full in
      rw (le→leb n (length (m ++ rest)) h, take-append_le n m rest (omega arith)))
