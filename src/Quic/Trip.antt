-- ===== src/Quic/Trip.antt =====
-- A packet on its way between the two ends.
use rtp_over_quic.Base.{
  ℕ, ◌<◌, ◌^◌, ◌≡◌, refl, sym, ap, ◌∙◌, false, List, [], ◌∷◌, ◌++◌, Option, none, some, ok, length,
  drop-append_self,
}
use mathlib.Core.List.{append_assoc}
use rtp_over_quic.Pion.{RtpLib, Attributes}
use rtp_over_quic.Quic.Varint.{VarintLib, IsVarint}
use rtp_over_quic.Quic.Mode.{SenderConfig, TransportMode, dgram, stream}
use rtp_over_quic.Quic.Sender.{Sending, on_dgram, on_stream, media_write, media_stream}
use rtp_over_quic.Quic.Sender.Choice.{bytes_of, media_write-IsChosen}
use rtp_over_quic.Quic.Receiver.{
  Pkt, got, failed, application_error, demux, receive_dgrams, read_stream, write_rtcp,
  read_from_network, packet_attributes,
}

abbrev pub to_list : Option Pkt → List Pkt
to_list none = []
to_list (some p) = p ∷ []

-- What the other end hands to its reader: a datagram through `receiveDgrams`, until the connection
-- is closed, and a stream through `readStream`.
abbrev pub arrives : VarintLib → Sending → List Pkt
arrives v (on_dgram pl acked) = (receive_dgrams v (got pl ∷ failed (application_error 0) ∷ [])).0
arrives v (on_stream pl) = to_list (read_stream v pl none)

abbrev mode_of : Sending → TransportMode
mode_of (on_dgram pl acked) = dgram
mode_of (on_stream pl) = stream

ok-injective {ℓ} : {A : Type ℓ} {x y : A} → ok x ≡ ok y → x ≡ y
ok-injective e = cc

module _ (v : VarintLib) (law : IsVarint v) where
  pub demux-write :
      (id : ℕ) (enc rest : List ℕ)
      → id < 2 ^ 62
      → v.write id ≡ ok enc
      → demux v (enc ++ rest) ≡ ok (id, rest)
  demux-write id enc rest h e =
      let (enc', written, len) = law.writes id h in
      let same : length enc ≡ v.len id = ap length (ok-injective (sym e ∙ written)) ∙ len in
      rw (law.reads id enc rest e, ← same, drop-append_self enc)

  pub read_stream-write :
      (id : ℕ) (enc rest : List ℕ)
      → v.write id ≡ ok enc
      → read_stream v (enc ++ rest) none
        ≡ some (record { flow_id = id; transport = stream; buffer = rest })
  unfolding read_stream
  read_stream-write id enc rest e = rw (law.reads id enc rest e, read_stream)

  arrives-bytes :
      (id : ℕ) (enc rest : List ℕ) (s : Sending)
      → id < 2 ^ 62
      → v.write id ≡ ok enc
      → bytes_of s ≡ enc ++ rest
      → arrives v s ≡ record { flow_id = id; transport = mode_of s; buffer = rest } ∷ []
  unfolding receive_dgrams
  arrives-bytes id enc rest (on_dgram pl acked) h e b =
      rw (b, receive_dgrams, demux-write id enc rest h e)
  arrives-bytes id enc rest (on_stream pl) h e b = rw (b, read_stream-write id enc rest e)

  -- An RTP packet that the writer of a media stream with a flow ID below 2 ^ 62 sends arrives at
  -- the other end as one packet, by the way that it was sent, with the flow ID, and with the
  -- marshalled header and the payload as its buffer: the receiver cuts off the flow ID and nothing
  -- else.
  pub media_stream-arrives :
      (r : RtpLib) (c : SenderConfig) (id now : ℕ) (header : r.Header) (payload : List ℕ)
      (attributes : Option Attributes) (header_buf : List ℕ) (s : Sending)
      → id < 2 ^ 62
      → r.marshal header ≡ ok header_buf
      → media_stream r c v id now header payload attributes ≡ ok s
      → arrives v s
        ≡ record { flow_id = id; transport = mode_of s; buffer = header_buf ++ payload } ∷ []
  unfolding media_stream
  media_stream-arrives r c id now header payload attributes header_buf s h marshalled e =
      let (enc, written, len) = law.writes id h in
      let sent : media_write r c enc now header payload attributes ≡ ok s =
        rw (written, media_stream) at e in
      arrives-bytes id enc (header_buf ++ payload) s h written
        (media_write-IsChosen r c enc now header payload attributes header_buf s marshalled sent).0

  -- The feedback that the receiver writes for a packet, with the attributes that came with the
  -- packet, comes out of the sender's reading loop as it was marshalled, and `WriteRTCP` returns
  -- its length. The flow ID is below 2 ^ 62.
  pub write_rtcp-read_from_network :
      (p : Pkt) (buf : List ℕ)
      → p.flow_id < 2 ^ 62
      → (n : ℕ) × (msg : List ℕ) × (write_rtcp v (ok buf) (packet_attributes v p) ≡ ok (n, msg))
        × (n ≡ length buf)
        × (read_from_network v (got msg ∷ []) ≡ (buf ∷ [], false))
  unfolding write_rtcp read_from_network packet_attributes
  write_rtcp-read_from_network p buf h =
      let (enc, written, len) = law.writes p.flow_id h in
      (length buf, enc ++ buf, rw written, refl, rw (demux-write p.flow_id enc buf h written))

-- Where a sender writes its flow ID in more bytes than it needs, as QUIC allows, the receiver does
-- not cut off the whole ID: if `quicvarint.Read` consumes an encoding that is longer than
-- `quicvarint.Len` of the number, then the buffer of the packet begins with the rest of the
-- encoding.
receive_dgrams-padded :
    (v : VarintLib) (id : ℕ) (enc extra payload : List ℕ)
    → v.len id ≡ length enc
    → v.read ((enc ++ extra) ++ payload) ≡ ok (id, payload)
    → (receive_dgrams v (got ((enc ++ extra) ++ payload) ∷ [])).0
      ≡ record { flow_id = id; transport = dgram; buffer = extra ++ payload } ∷ []
unfolding receive_dgrams
receive_dgrams-padded v id enc extra payload len read =
    rw (read, len, append_assoc enc, drop-append_self enc)
