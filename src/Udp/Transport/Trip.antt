-- ===== src/Udp/Transport/Trip.antt =====
-- Packets on their way over UDP, from the writer of a media stream to the server's handler.
use rtp_over_quic.Base.{
  ℕ, ◌≤◌, ◌≡◌, refl, ◌∙◌, List, [], ◌∷◌, ◌++◌, map, Outcome, ok, err, panic, All, length, take_all,
}
use rtp_over_quic.Pion.{RtpLib}
use rtp_over_quic.Udp.Server.{Read, datagram, start}
use rtp_over_quic.Udp.Server.Routing.{arrived, received, start-IsRouted}
use rtp_over_quic.Udp.Transport.{media_write}

-- A packet, with the address that it comes from, and its marshalled header.
pub record Sent (r : RtpLib) : Type 0 where
  pub addr : ℕ
  pub header : r.Header
  pub payload : List ℕ
  pub header_buf : List ℕ

abbrev pub bytes_of : Outcome (List ℕ) → List ℕ
bytes_of (ok buf) = buf
bytes_of (err e) = []
bytes_of panic = []

module _ {r : RtpLib} where
  -- Its header marshals, and it fits into the buffer of the server.
  abbrev pub Fits : Sent r → Type 0
  Fits p = (r.marshal p.header ≡ ok p.header_buf) × (length (p.header_buf ++ p.payload) ≤ 1500)

  -- What is read of a packet that is sent.
  abbrev pub read_of : Sent r → Read
  read_of p = datagram p.addr (bytes_of (media_write r p.header p.payload))

  abbrev pub whole : Sent r → ℕ × List ℕ
  whole p = (p.addr, p.header_buf ++ p.payload)

  arrived-whole :
      (ps : List (Sent r)) (rest : List Read)
      → All Fits ps
      → arrived (map read_of ps ++ rest) ≡ map whole ps ++ arrived rest
  unfolding media_write
  arrived-whole [] rest fits = refl
  arrived-whole (p ∷ ps) rest ((marshals, small), fits) =
      rw (marshals, take_all 1500 (p.header_buf ++ p.payload) small, arrived-whole ps rest fits)
        refl

  -- If no datagram is lost or reordered on the way: packets of at most 1500 bytes, from any number
  -- of senders, whose headers marshal, reach the handlers of their senders' addresses once, in
  -- order and whole, whatever is read after them.
  pub start-media_write :
      (ps : List (Sent r)) (rest : List Read)
      → All Fits ps
      → received (start (map read_of ps ++ rest)).0 ≡ map whole ps ++ arrived rest
  start-media_write ps rest fits =
      (start-IsRouted (map read_of ps ++ rest)).0 ∙ arrived-whole ps rest fits
