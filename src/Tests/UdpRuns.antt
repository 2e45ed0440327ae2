-- ===== src/Tests/UdpRuns.antt =====
-- The UDP server and the receive buffer at concrete inputs.
use rtp_over_quic.Base.{ℕ, true, false, List, [], ◌∷◌, inr}
use rtp_over_quic.Udp.Transport.Trip.{Sent}
use rtp_over_quic.Tests.Packages.{small_rtp}
use rtp_over_quic.Udp.Server.{Read, datagram, closed}
use rtp_over_quic.Udp.Buffer.{Socket}
use rtp_over_quic.Udp.Sockets.{NetLib, listen_udp, connect_udp, IsPrepared, sockets-IsPrepared}

abbrev three_datagrams : List Read
three_datagrams = datagram 1 (10 ∷ []) ∷ datagram 2 (20 ∷ []) ∷ datagram 1 (11 ∷ []) ∷ closed ∷ []

-- A socket whose kernel gives the size that is asked for.
abbrev obliging : Socket
obliging = record {
  State = ℕ;
  can_set = true;
  can_inspect = true;
  inspect = inr;
  set_read_buffer = λ size s. inr size;
}

-- A network where every address resolves and opens a socket with a buffer of one byte, and where no
-- text is part of another one.
abbrev open_net : NetLib obliging
open_net = record {
  Addr = Unit {0};
  resolve = λ addr. inr tt;
  listen = λ addr. inr 1;
  dial = λ addr. inr 1;
  contains = λ text part. false;
  decimal = λ n. "";
}

sockets-IsPrepared_example :
    IsPrepared obliging open_net open_net.listen
      (open_net.resolve "a")
      (listen_udp obliging open_net "a")
    × IsPrepared obliging open_net open_net.dial
        (open_net.resolve "a")
        (connect_udp obliging open_net "a")
sockets-IsPrepared_example = sockets-IsPrepared obliging open_net "a"

-- Two packets of one sender, and one of another.
abbrev three_packets : List (Sent small_rtp)
three_packets =
    record { addr = 1; header = 258; payload = 9 ∷ []; header_buf = 1 ∷ 2 ∷ [] }
    ∷ record { addr = 2; header = 0; payload = []; header_buf = 0 ∷ 0 ∷ [] }
    ∷ record { addr = 1; header = 259; payload = 8 ∷ []; header_buf = 1 ∷ 3 ∷ [] }
    ∷ []
