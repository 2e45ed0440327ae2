-- ===== src/Quic/LocalFeedback/Acked.antt =====
-- The packets that the local feedback is about.
use rtp_over_quic.Base.{
  ℕ, ◌+◌, ◌≡◌, refl, ap, ◌∙◌, true, false, List, [], ◌∷◌, ◌++◌, map, Option, none, some, Outcome,
  ok, err, panic, ◌>>=◌, length, All, Bool-cases, inl, inr, ltb, if◌then◌else◌,
}
use mathlib.Core.Path.{subst}
use rtp_over_quic.Pion.{
  RtpLib, FloatLib, Attributes, Value, of_time, of_reliability, of_flow_id, of_transport, of_other,
}
use rtp_over_quic.Scream.Receiver.{RxLib}
use rtp_over_quic.Quic.Mode.{SenderConfig, TransportMode, any, dgram, stream}
use rtp_over_quic.Quic.Sender.{
  Sending, on_dgram, on_stream, AckedPkt, is_required, ack_callback, choose, media_write,
  write_dgram, by_mode,
}
use rtp_over_quic.Quic.Sender.Choice.{Ensures}
use rtp_over_quic.Quic.LocalFeedback.{Event, acked, Receive, step, run}

-- A packet that the media stream sends, and its acknowledgement: with the time at which `run` takes
-- it, and the RTT that it finds.
pub record Sent (r : RtpLib) : Type 0 where
  pub now : ℕ
  pub header : r.Header
  pub payload : List ℕ
  pub attributes : Option Attributes
  pub datagram : List ℕ
  pub pkt : AckedPkt
  pub taken : ℕ
  pub rtt : ℕ

-- SSRC, sequence number and size.
abbrev pub received_as : Receive → ℕ × ℕ × ℕ
received_as v = (v.ssrc, v.seq_nr, v.size)

abbrev pub event_of : {r : RtpLib} → Sent r → Event
event_of d = acked d.pkt d.taken d.rtt

-- The packet's SSRC and sequence number, and a size that counts the header twice: on its own and
-- in the datagram.
abbrev sent_as : {r : RtpLib} → Sent r → ℕ × ℕ × ℕ
sent_as {r} d =
    (r.ssrc d.header, r.sequence_number d.header, r.marshal_size d.header + length d.datagram)

module _ (r : RtpLib) (c : SenderConfig) (now : ℕ) (header : r.Header) where
  -- What a datagram is acknowledged with.
  abbrev IsAckedAs : Sending → Type 0
  IsAckedAs (on_stream pl) = Unit {0}
  IsAckedAs (on_dgram pl pkt) =
      pkt
      ≡ ack_callback c now (r.ssrc header) (r.marshal_size header + length pl)
          (r.sequence_number header)

  abbrev Acks : Outcome Sending → Type 0
  Acks = Ensures IsAckedAs

  Acks-required :
      (pl : List ℕ) (reliability : Option Value)
      → Acks (
          is_required reliability >>= λ required.
          ok (if required then on_stream pl else write_dgram r c now header pl))
  Acks-required pl none = refl
  Acks-required pl (some (of_reliability true)) = tt
  Acks-required pl (some (of_reliability false)) = refl
  Acks-required pl (some (of_time t)) = tt
  Acks-required pl (some (of_flow_id t)) = tt
  Acks-required pl (some (of_transport t)) = tt
  Acks-required pl (some of_other) = tt

  Acks-choose :
      (pl : List ℕ) (attributes : Option Attributes) → Acks (choose r c now header pl attributes)
  unfolding choose
  Acks-choose pl none = elim (Bool-cases (ltb c.max_mtu (length pl))) [
    | inl large ↦ rw large tt
    | inr small ↦ rw small refl
  ]
  Acks-choose pl (some a) = elim (Bool-cases (ltb c.max_mtu (length pl))) [
    | inl large ↦ rw large tt
    | inr small ↦ rw small (Acks-required pl a.reliability)
  ]

  Acks-by_mode :
      (mode : TransportMode) (pl : List ℕ) (attributes : Option Attributes)
      → Acks (by_mode r c mode now header pl attributes)
  Acks-by_mode dgram pl attributes = refl
  Acks-by_mode stream pl attributes = tt
  Acks-by_mode any pl attributes = Acks-choose pl attributes

  Acks-media_write :
      (id_bytes payload : List ℕ) (attributes : Option Attributes)
      → Acks (media_write r c id_bytes now header payload attributes)
  unfolding media_write
  Acks-media_write id_bytes payload attributes = marshalled (r.marshal header)
    where
      marshalled :
          (o : Outcome (List ℕ))
          → Acks (
              o >>= λ header_buf.
              by_mode r c c.transport_mode now header
                (id_bytes ++ (header_buf ++ payload))
                attributes)
      marshalled (ok buf) = Acks-by_mode c.transport_mode (id_bytes ++ (buf ++ payload)) attributes
      marshalled (err e) = tt
      marshalled panic = tt

abbrev numbers_of : Option AckedPkt → ℕ × ℕ × ℕ
numbers_of none = (0, 0, 0)
numbers_of (some pkt) = (pkt.ssrc, pkt.seq_nr, pkt.size)

module _ {r : RtpLib} (c : SenderConfig) (id_bytes : List ℕ) where
  -- The media stream sends the packet in that datagram, whose acknowledgement reports that packet.
  abbrev IsSent : Sent r → Type 0
  IsSent d =
      media_write r c id_bytes d.now d.header d.payload d.attributes
      ≡ ok (on_dgram d.datagram (some d.pkt))

  sent_pkt : (d : Sent r) → IsSent d → (d.pkt.ssrc, d.pkt.seq_nr, d.pkt.size) ≡ sent_as d
  unfolding ack_callback
  sent_pkt d sends =
      let same =
        subst (Acks r c d.now d.header) sends
          (Acks-media_write r c d.now d.header id_bytes d.payload d.attributes) in
      elim (Bool-cases c.local_rfc8888) [
        | inl on ↦ ap numbers_of (rw (on, ack_callback) at same)
        | inr off ↦ cc (rw (off, ack_callback) at same)
      ]

  -- For datagrams that the media stream of a QUIC sender sends with a callback, in the order in
  -- which they are acknowledged: scream-go's receiver gets each once, with the SSRC and the
  -- sequence number of its packet, and with the size of the whole datagram and once more that of
  -- the header, which the datagram already has.
  pub run-acked :
      (f : FloatLib) (x : RxLib) (t0 : f.Float) (rx : x.Rx) (ds : List (Sent r))
      → All IsSent ds
      → map received_as (run f x t0 rx (map event_of ds)).0 ≡ map sent_as ds
  unfolding run step
  run-acked f x t0 rx [] sends = refl
  run-acked f x t0 rx (d ∷ ds) (first, others) =
      let (rx', received, reports) = step f x t0 rx d.pkt d.taken d.rtt in
      ap (◌∷◌ (received_as received)) (run-acked f x t0 rx' ds others)
      ∙ ap (λ v. v ∷ map sent_as ds) (sent_pkt d first)
