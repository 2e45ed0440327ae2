-- ===== src/Udp/Server.antt =====
-- udp/receiver.go, `Start`: one socket, and a handler for each remote address.
pub mod Routing
use rtp_over_quic.Base.{
  ℕ, Bool, true, false, List, [], ◌∷◌, ◌++◌, Option, none, some, if◌then◌else◌, mem_nat, ◌==◌, take,
}

-- What a call of `ReadFromUDP` gives: a datagram with its source (a number for each
-- `netip.AddrPort`), `net.ErrClosed`, or another error.
pub data Read : Type 0 where
  datagram : ℕ → List ℕ → Read
  closed broken : Read

-- What the server does: a new handler with `onNewHandler`, or a packet for the handler of an
-- address.
pub data Act : Type 0 where
  new_handler : ℕ → Act
  receives : ℕ → List ℕ → Act

-- How `Start` ends: it still reads, it returns nil, or it returns the error.
pub data Exit : Type 0 where
  reading returns_nil returns_error : Exit

-- A datagram that is longer than the buffer is cut to it.
abbrev pub buffer_size : ℕ
buffer_size = 1500

-- The handlers are known by their addresses.
unfoldable pub serve : List ℕ → List Read → List Act × Exit
serve handlers [] = ([], reading)
serve handlers (closed ∷ reads) = ([], returns_nil)
serve handlers (broken ∷ reads) = ([], returns_error)
serve handlers (datagram addr buf ∷ reads) =
    let known = mem_nat addr handlers in
    let (acts, exit) = serve (if known then handlers else addr ∷ handlers) reads in
    let act = receives addr (take buffer_size buf) in
    ((if known then act ∷ acts else new_handler addr ∷ act ∷ acts), exit)

unfoldable pub start : List Read → List Act × Exit
unfolding serve
start reads = serve [] reads
