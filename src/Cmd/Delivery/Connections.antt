-- ===== src/Cmd/Delivery/Connections.antt =====
-- From the writers of the sender to the media sink of the receiver, over a TCP or a QUIC
-- connection.
use mathlib.Core.List.{Perm}
use mathlib.Core.List.Perm
use rtp_over_quic.Base.{
  ℕ, ◌+◌, ◌<◌, ◌^◌, ◌≡◌, refl, ap, ◌∙◌, true, List, [], ◌∷◌, ◌++◌, map, Option, ok, All, length,
  suc,
}
use rtp_over_quic.Pion.{RtpLib, Attributes, no_attributes}
use rtp_over_quic.Logging.{Os, LogFile, get_log_file}
use rtp_over_quic.Rtp.Registry.{dumps_sent_rtcp, dumps_received_rtp, Constructors}
use rtp_over_quic.Tcp.Framing.{frame, eof, receive}
use rtp_over_quic.Tcp.Framing as Tcp
use rtp_over_quic.Tcp.Transport.{handle}
use rtp_over_quic.Tcp.Framing.Trip.{conn, frames, IsFrameable, receive-frames_cut}
use rtp_over_quic.Udp.Transport.Trip.{bytes_of}
use rtp_over_quic.Quic.Varint.{VarintLib, IsVarint}
use rtp_over_quic.Quic.Mode.{SenderConfig}
use rtp_over_quic.Quic.Sender.{Sending, media_stream}
use rtp_over_quic.Quic.Receiver.{Pkt, packet_attributes}
use rtp_over_quic.Quic.Receiver as Quic
use rtp_over_quic.Quic.Trip.{arrives, media_stream-arrives}
use rtp_over_quic.Cmd.Setup.{ReceiveFlags, new_receiver_controller}
use rtp_over_quic.Cmd.Setup.Registries.{
  Accepts, feedback_factories, new_receiver_controller-registry,
}
use rtp_over_quic.Cmd.Delivery.{
  Stream, new_stream, Reader, Packages, sink_reader, bind_all, stream_reader, handle_packets,
  receive_tcp, receive_quic,
}
use rtp_over_quic.Cmd.Delivery.Sinks.{
  Writes, sink_reader-Writes, bind_all-Writes, handle_packets-sink,
}
use rtp_over_quic.Cmd.Delivery.Trip.{IsCalm, stream_reader-bind_all}

-- A packet that is written, with its marshalled header.
pub record Message (r : RtpLib) : Type 0 where
  pub header : r.Header
  pub payload : List ℕ
  pub header_buf : List ℕ

module _ {r : RtpLib} where
  abbrev pub whole : Message r → List ℕ
  whole m = m.header_buf ++ m.payload

  -- Its header marshals, and its frame has a length that fits into two bytes.
  abbrev Frames : Message r → Type 0
  Frames m = (r.marshal m.header ≡ ok m.header_buf) × (length (whole m) < 65536)

  -- What the writer of a TCP media stream writes.
  abbrev pub written : List (Message r) → List ℕ
  written [] = []
  written (m ∷ ms) = bytes_of (Tcp.media_write r m.header m.payload) ++ written ms

  written-frames :
      (ms : List (Message r))
      → All Frames ms
      → (written ms ≡ frames (map whole ms)) × All IsFrameable (map whole ms)
  unfolding Tcp.media_write
  written-frames [] fit = (refl, tt)
  written-frames (m ∷ ms) ((marshals, small), fit) =
      let (same, fits) = written-frames ms fit in
      (rw marshals (ap (λ (rest : List ℕ). frame (whole m) ++ rest) same), (small, fits))

-- A packet that the writer of a QUIC media stream is called with, at a time, and what it sends.
pub record Sent (r : RtpLib) : Type 0 where
  pub message : Message r
  pub attributes : Option Attributes
  pub now : ℕ
  pub sending : Sending

module _ {r : RtpLib} (c : SenderConfig) (v : VarintLib) (id : ℕ) where
  -- Its header marshals, and the writer of the flow sends it without an error.
  abbrev pub Sends : Sent r → Type 0
  Sends q =
      (r.marshal q.message.header ≡ ok q.message.header_buf)
      × (media_stream r c v id q.now q.message.header q.message.payload q.attributes ≡ ok q.sending)

  -- What the goroutines of the other end make of it.
  abbrev pub arrive_all : List (Sent r) → List Pkt
  arrive_all [] = []
  arrive_all (q ∷ qs) = arrives v q.sending ++ arrive_all qs

  arrive_all-buffers :
      (law : IsVarint v) (qs : List (Sent r))
      → id < 2 ^ 62
      → All Sends qs
      → map (λ p. p.buffer) (arrive_all qs) ≡ map (λ q. whole q.message) qs
  arrive_all-buffers law [] small sends = refl
  arrive_all-buffers law (q ∷ qs) small ((marshals, sent), sends) =
      let m = q.message in
      let one =
        media_stream-arrives v law r c id q.now m.header m.payload q.attributes m.header_buf
          q.sending small marshals sent in
      rw one (ap (◌∷◌ (whole m)) (arrive_all-buffers law qs small sends))

handle-buffers :
    (v : VarintLib) (pkts : List Pkt)
    → map (λ (p : List ℕ × Attributes). p.0) (Quic.handle v true pkts) ≡ map (λ p. p.buffer) pkts
unfolding Quic.handle
handle-buffers v [] = refl
handle-buffers v (p ∷ ps) = ap (◌∷◌ p.buffer) (handle-buffers v ps)

length-map : {A B : Type 0} (g : A → B) (xs : List A) → length (map g xs) ≡ length xs
length-map g [] = refl
length-map g (x ∷ xs) = ap suc (length-map g xs)

map-pair :
    (ps : List (List ℕ))
    → map (λ (p : List ℕ × Attributes). p.0) (map (λ b. (b, no_attributes)) ps) ≡ ps
map-pair [] = refl
map-pair (p ∷ ps) = ap (◌∷◌ p) (map-pair ps)

handle_all : (ps : List (List ℕ)) → handle true ps ≡ ps
unfolding handle
handle_all [] = refl
handle_all (p ∷ ps) = ap (◌∷◌ p) (handle_all ps)

module _ {r : RtpLib} (p : Packages r) (os : Os) (fails : Constructors) (fl : ReceiveFlags)
    (rtp rtcp : LogFile) (calm : IsCalm p) (accepts : Accepts fails)
    (opens_rtp : get_log_file os fl.rtp_dump_file ≡ ok rtp)
    (opens_rtcp : get_log_file os fl.rtcp_dump_file ≡ ok rtcp) where
  -- The reader of a stream writes each buffer to the sink once.
  stream_reader-Writes :
      (reader : Reader r) × (stream_reader p (ok tt) (new_receiver_controller os fails fl)
        ≡ ok reader)
      × Writes reader
  stream_reader-Writes =
      let factories = dumps_sent_rtcp rtcp ∷ dumps_received_rtp rtp ∷ feedback_factories fl in
      (
        bind_all p factories (sink_reader p),
        stream_reader-bind_all p (new_receiver_controller os fails fl) factories calm
            (new_receiver_controller-registry os fails fl rtp rtcp accepts opens_rtp opens_rtcp),
        bind_all-Writes p calm.calls factories (sink_reader p) (sink_reader-Writes p),
      )

  -- If the log files of the receiver can be made, and no constructor, no sink and no `Build` fails,
  -- and if the interceptors that are pion's call the readers that they wrap once: packets of less
  -- than 65536 bytes that the sender writes with TCP are given, whole and in order, each once, to
  -- the media sink, and nothing else is, also where the connection ends in the middle of a further
  -- frame. A turn of the reading loop for each packet and two more are enough.
  pub receive_tcp-sink :
      (ms : List (Message r)) (m cut : List ℕ) (x : ℕ) (back : List ℕ)
      → All Frames ms
      → IsFrameable m
      → frame m ≡ cut ++ x ∷ back
      → (s : Stream r) × (receive_tcp p
            (ok tt)
            (new_receiver_controller os fails fl)
            (length ms + 2)
            (conn (written ms ++ cut) eof)
          ≡ ok s)
        × (s.sink ≡ map whole ms)
  unfolding receive_tcp
  receive_tcp-sink ms m cut x back fit fm e =
      let (reader, made, writes) = stream_reader-Writes in
      let (same, fits) = written-frames ms fit in
      let read : receive (length ms + 2) (conn (written ms ++ cut) eof)
          ≡ (map whole ms, Tcp.returned) =
        rw (same, ← length-map whole ms)
          (receive-frames_cut (map whole ms) m cut x back fits fm e) in
      rw (made, read, handle_all (map whole ms))
        (
          handle_packets reader (map (λ b. (b, no_attributes)) (map whole ms)) (new_stream r),
          refl,
          handle_packets-sink reader _ (new_stream r) writes ∙ map-pair (map whole ms),
        )

  -- If the log files of the receiver can be made, and no constructor, no sink and no `Build` fails,
  -- and if the interceptors that are pion's call the readers that they wrap once: with QUIC, in
  -- whatever order datagrams and streams come in, and if none is lost, the packets that the sender
  -- writes with a flow ID below 2 ^ 62 are given to the media sink whole, each exactly once,
  -- whichever of them go in datagrams and which on streams.
  pub receive_quic-sink :
      (c : SenderConfig) (v : VarintLib) (id : ℕ) (qs : List (Sent r)) (pkts : List Pkt)
      → IsVarint v
      → id < 2 ^ 62
      → All (Sends c v id) qs
      → Perm pkts (arrive_all c v id qs)
      → (s : Stream r) × (receive_quic p (ok tt) (new_receiver_controller os fails fl) v pkts
          ≡ ok s)
        × Perm s.sink (map (λ q. whole q.message) qs)
  unfolding receive_quic
  receive_quic-sink c v id qs pkts law small sends order =
      let (reader, made, writes) = stream_reader-Writes in
      let given =
        handle_packets-sink reader (Quic.handle v true pkts) (new_stream r) writes
        ∙ handle-buffers v pkts in
      rw made (
        handle_packets reader (Quic.handle v true pkts) (new_stream r),
        refl,
        rw (given, ← arrive_all-buffers c v id law qs small sends) (Perm.map (λ p. p.buffer) order),
      )
