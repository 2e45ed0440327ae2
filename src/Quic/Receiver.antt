-- ===== src/Quic/Receiver.antt =====
-- quic/receiver.go: what arrives on a connection, and the feedback that goes back.
use rtp_over_quic.Base.{
  ℕ, ◌==◌, Bool, true, false, List, [], ◌∷◌, ◌++◌, Option, none, some, Outcome, ok, err, panic,
  ◌>>=◌, if◌then◌else◌, length, drop,
}
use rtp_over_quic.Pion.{
  Attributes, Value, of_time, of_reliability, of_flow_id, of_transport, of_other,
}
use rtp_over_quic.Quic.Varint.{VarintLib}
use rtp_over_quic.Quic.Mode.{TransportMode, dgram, stream, mode_number}

pub record Pkt : Type 0 where
  pub flow_id : ℕ
  pub transport : TransportMode
  pub buffer : List ℕ

-- The errors that the loops tell apart: `*quic.ApplicationError` with its code, a `net.Error` that
-- is a timeout, and the others.
pub data RecvError : Type 0 where
  application_error : ℕ → RecvError
  timeout : RecvError
  io_eof : RecvError
  other : RecvError

-- The connection is gone, and the goroutine returns.
abbrev pub is_final : RecvError → Bool
is_final (application_error code) = code == 0
is_final timeout = true
is_final _ = false

-- A call of `ReceiveMessage`, or of `AcceptUniStream` with `ReadAll`.
pub data Received : Type 0 where
  got : List ℕ → Received
  failed : RecvError → Received

module _ (v : VarintLib) where
  -- The flow ID, and the message without the bytes that `quicvarint.Len` counts.
  abbrev pub demux : List ℕ → Outcome (ℕ × List ℕ)
  demux msg = do (id, rest) ← v.read msg; ok (id, drop (v.len id) msg)

  abbrev dgram_pkts : Outcome (ℕ × List ℕ) → List Pkt
  dgram_pkts (ok (id, buffer)) = record { flow_id = id; transport = dgram; buffer = buffer } ∷ []
  dgram_pkts _ = []

  -- The loop of `receiveDgrams`, on what the calls of `ReceiveMessage` give: the packets that it
  -- hands on, and whether it returned.
  unfoldable pub receive_dgrams : List Received → List Pkt × Bool
  receive_dgrams [] = ([], false)
  receive_dgrams (failed e ∷ more) = if is_final e then ([], true) else receive_dgrams more
  receive_dgrams (got msg ∷ more) =
      let (ps, returned) = receive_dgrams more in (dgram_pkts (demux msg) ++ ps, returned)

  -- `readStream`, on the bytes of the stream and what `io.ReadAll` returns behind them.
  unfoldable pub read_stream : List ℕ → Option RecvError → Option Pkt
  read_stream bytes error = elim (v.read bytes) [
    | ok (id, buf) ↦ elim error [
      | none ↦ some (record { flow_id = id; transport = stream; buffer = buf })
      | some e ↦ none
    ]
    | err e ↦ none
    | panic ↦ none
  ]

  -- The attributes that `handle` gives to the reader with a packet.
  unfoldable pub packet_attributes : Pkt → Attributes
  packet_attributes p = record {
    reliability = none;
    timestamp = none;
    flow_id = some (of_flow_id p.flow_id);
    transport = some (of_transport (mode_number p.transport));
  }

  -- `handle`, on the packets of its channel in order, until the context is done: what the reader
  -- gets. Without a reader a packet is dropped; an error of the reader is only logged.
  unfoldable pub handle : Bool → List Pkt → List (List ℕ × Attributes)
  unfolding packet_attributes
  handle has_reader [] = []
  handle has_reader (p ∷ ps) =
      let rest = handle has_reader ps in
      if has_reader then (p.buffer, packet_attributes p) ∷ rest else rest

  -- `i.(uint64)`: a value of another type panics; nil is 0.
  abbrev flow_id_of : Option Value → Outcome ℕ
  flow_id_of none = ok 0
  flow_id_of (some (of_flow_id id)) = ok id
  flow_id_of (some (of_time t)) = panic
  flow_id_of (some (of_reliability b)) = panic
  flow_id_of (some (of_transport t)) = panic
  flow_id_of (some of_other) = panic

  -- `WriteRTCP`, on the result of `rtcp.Marshal`: the number that it returns, and the datagram that
  -- it sends.
  unfoldable pub write_rtcp : Outcome (List ℕ) → Attributes → Outcome (ℕ × List ℕ)
  write_rtcp marshalled attributes = do
    buf ← marshalled
    id ← flow_id_of attributes.flow_id
    id_buf ← v.write id
    ok (length buf, id_buf ++ buf)

  -- sender.go's `readFromNetwork`: the RTCP feedback that it hands on, and whether it returned.
  unfoldable pub read_from_network : List Received → List (List ℕ) × Bool
  read_from_network [] = ([], false)
  read_from_network (failed e ∷ more) = if is_final e then ([], true) else read_from_network more
  read_from_network (got buf ∷ more) =
      let (fs, returned) = read_from_network more in
      (elim (demux buf) [ ok (id, feedback) ↦ feedback ∷ fs | err e ↦ fs | panic ↦ fs ], returned)
