-- ===== src/Cmd/Delivery.antt =====
-- cmd/receive.go, `handle` and `addStream`, behind the servers of the three transports: each
-- handler gets a media sink and a chain of interceptors of its own, and its packets go through the
-- chain into the sink.
--
-- A reader takes the state of its stream, a buffer and attributes, and returns a length and
-- attributes, or an error, which the handler only logs.
pub mod Sinks
pub mod Trip
pub mod Connections
pub mod Queued
use rtp_over_quic.Base.{
  ℕ, true, ◌≡◌, refl, String, List, [], ◌∷◌, ◌++◌, map, Option, none, some, Outcome, ok, err, panic,
  ◌>>=◌, take,
}
use rtp_over_quic.Base.Assoc.{update_key}
use rtp_over_quic.Pion.{RtpLib, Attributes, no_attributes}
use rtp_over_quic.Scream.Queue.{Packet}
use rtp_over_quic.Scream.Receiver.{Event, bind_remote_stream, read_rtp}
use rtp_over_quic.Rtp.Registry.{Factory, scream_receiver, Registry, new}
use rtp_over_quic.Udp.Server.{Act, new_handler, receives, Read, start}
use rtp_over_quic.Tcp.Framing.{Conn, receive}
use rtp_over_quic.Tcp.Transport as Tcp
use rtp_over_quic.Quic.Varint.{VarintLib}
use rtp_over_quic.Quic.Receiver.{Pkt}
use rtp_over_quic.Quic.Receiver as Quic
use rtp_over_quic.Cmd.Setup.{ReceiverController}
use rtp_over_quic.Cmd.Start.{add_stream}

-- What has happened to a stream: the calls of the sink's `Write`, and the packets that SCReAM's
-- interceptor has put on its channel.
pub record Stream (r : RtpLib) : Type 0 where
  pub sink : List (List ℕ)
  pub queued : List (Packet r)

abbrev pub new_stream : (r : RtpLib) → Stream r
new_stream r = record { sink = []; queued = [] }

abbrev pub Reader : RtpLib → Type 0
Reader r = Stream r → List ℕ → Attributes → Stream r × Option (ℕ × Attributes)

-- The packages: the answer of the pipeline to a `Write`, after those before it; `Packet.Unmarshal`;
-- the clock; whether `Build` fails; and `BindRemoteStream` of pion's interceptors.
pub record Packages (r : RtpLib) : Type 0 where
  pub write : List (List ℕ) → List ℕ → Option ℕ
  pub unmarshal : List ℕ → Option (r.Header × List ℕ)
  pub clock : List (List ℕ) → ℕ
  pub build_error : Registry → Option String
  pub bind : Factory → Reader r → Reader r

abbrev of_option {ℓ} : {A : Type ℓ} → Option A → Outcome A
of_option none = err ""
of_option (some a) = ok a

-- The first bytes of the buffer, as many as were read.
abbrev pub read_of : List ℕ → Option (ℕ × Attributes) → Outcome (List ℕ × Attributes)
read_of b none = err ""
read_of b (some (n, attr)) = ok (take n b, attr)

-- `r.receive <- &packet{…}`, and what the reader returns.
abbrev pub queue_read :
    {r : RtpLib}
    → Stream r
    → Outcome (ℕ × Attributes × Packet r)
    → Stream r × Option (ℕ × Attributes)
queue_read s (ok (n, attr, pkt)) = (record s { queued = s.queued ++ pkt ∷ [] }, some (n, attr))
queue_read s (err e) = (s, none)
queue_read s panic = (s, none)

module _ {r : RtpLib} (p : Packages r) where
  -- The innermost reader of `addStream`.
  unfoldable pub sink_reader : Reader r
  sink_reader s b a = (
    record s { sink = s.sink ++ b ∷ [] },
    elim (p.write s.sink b) [ none ↦ none | some n ↦ some (n, a) ],
  )

  -- The reader of scream/receiver_interceptor.go's `BindRemoteStream`, around another one.
  unfoldable pub scream_reader : Reader r → Reader r
  unfolding read_rtp
  scream_reader inner s b a =
      let (s', result) = inner s b a in
      queue_read s'
        (read_rtp (λ buf. of_option (p.unmarshal buf)) (p.clock s.sink) a (read_of b result))

  -- `BindRemoteStream` with the stream that `addStream` describes: its SSRC is 0, and its feedback
  -- is that of RFC 8888.
  unfoldable pub bind_factory : Factory → Reader r → Reader r
  unfolding bind_remote_stream
  bind_factory (scream_receiver interval) reader =
      elim (bind_remote_stream {r = r} 0 (("ack", "ccfb") ∷ [])) [
        | none ↦ reader
        | some bound ↦ scream_reader reader
      ]
  bind_factory factory reader = p.bind factory reader

  -- pion's chain: each interceptor of the registry wraps the reader of those before it.
  unfoldable pub bind_all : Registry → Reader r → Reader r
  bind_all [] reader = reader
  bind_all (factory ∷ factories) reader = bind_all factories (bind_factory factory reader)

  -- `addStream`, for the answer of `NewGstreamerSink`.
  unfoldable pub stream_reader : Outcome (Unit {0}) → ReceiverController → Outcome (Reader r)
  unfolding add_stream
  stream_reader new_sink c = do
    (sink, registry) ←
        add_stream new_sink (new c.rtp_options)
          (λ registry. elim (p.build_error registry) [ none ↦ ok registry | some e ↦ err e ])
    ok (bind_all registry sink_reader)

module _ {r : RtpLib} where
  -- What the server does: `onNewHandler` makes a stream, and `Handler.receive` calls its reader.
  -- The list holds the streams by their addresses.
  unfoldable pub handle_acts :
      Outcome (Reader r) → List Act → List (ℕ × Stream r) → Outcome (List (ℕ × Stream r))
  handle_acts added [] streams = ok streams
  handle_acts added (new_handler addr ∷ acts) streams =
      added >>= λ reader. handle_acts added acts ((addr, new_stream r) ∷ streams)
  handle_acts added (receives addr buf ∷ acts) streams = added >>= λ reader.
      handle_acts added acts (update_key addr (λ s. (reader s buf no_attributes).0) streams)

-- The receiver with --transport udp, on what its socket reads.
unfoldable pub receive_udp :
    {r : RtpLib}
    → Packages r
    → Outcome (Unit {0})
    → ReceiverController
    → List Read
    → Outcome (List (ℕ × Stream r))
unfolding handle_acts stream_reader
receive_udp p new_sink c reads = handle_acts (stream_reader p new_sink c) (start reads).0 []

module _ {r : RtpLib} where
  -- The `Read` calls of one handler: its packets, each with its attributes.
  unfoldable pub handle_packets : Reader r → List (List ℕ × Attributes) → Stream r → Stream r
  handle_packets reader [] s = s
  handle_packets reader ((b, a) ∷ ps) s = handle_packets reader ps (reader s b a).0

-- The receiver with --transport tcp, on one connection, for a number of turns of `receive`.
unfoldable pub receive_tcp :
    {r : RtpLib}
    → Packages r
    → Outcome (Unit {0})
    → ReceiverController
    → ℕ
    → Conn
    → Outcome (Stream r)
unfolding handle_packets stream_reader
receive_tcp {r} p new_sink c turns conn = do
  reader ← stream_reader p new_sink c
  ok (
      handle_packets reader (map (λ b. (b, no_attributes)) (Tcp.handle true (receive turns conn).0))
        (new_stream r))

-- The receiver with QUIC, on one connection, for the packets that its goroutines put on the channel
-- of `handle`, in the order in which they get there.
unfoldable pub receive_quic :
    {r : RtpLib}
    → Packages r
    → Outcome (Unit {0})
    → ReceiverController
    → VarintLib
    → List Pkt
    → Outcome (Stream r)
unfolding handle_packets stream_reader
receive_quic {r} p new_sink c v pkts = do
  reader ← stream_reader p new_sink c
  ok (handle_packets reader (Quic.handle v true pkts) (new_stream r))
