-- ===== src/Cmd/Priority/Paced.antt =====
-- The transport quic-prio with SCReAM between the media source and the wire: the attributes of a
-- packet go with it through the queue of the pacing loop.
use rtp_over_quic.Base.{
  ℕ, zero, suc, ◌<◌, ◌≡◌, sym, ap, ◌∙◌, Bool, true, false, List, [], ◌∷◌, ◌++◌, map, none, some, ok,
  ◌⊎◌, ◌↔◌, get_elem?, length,
}
use rtp_over_quic.Pion.{RtpLib, FloatLib}
use rtp_over_quic.Media.Config.{Config}
use rtp_over_quic.Media.KeyFrame.{H264Lib}
use rtp_over_quic.Media.Play.{PacketLib, Input, Write, Writer, play}
use rtp_over_quic.Media.Play.Marking.{source_packets}
use rtp_over_quic.Quic.Sender.{Sending, media_write}
use rtp_over_quic.Quic.Sender.Choice.{OnStream, bytes_of}
use rtp_over_quic.Scream.Queue.{Packet, new_queue}
use rtp_over_quic.Scream.Tx.{TxLib}
use rtp_over_quic.Scream.Pacing.{Event, written, Loop, selecting, run}
use rtp_over_quic.Scream.Pacing.Order.{gone, arrivals, gone-run}
use rtp_over_quic.Cmd.Transport.{Flags, quic_sender_config, use_gst_packetizer}
use rtp_over_quic.Cmd.Priority.{get_elem?-append, play-OnStream}

get_elem?-over {ℓ κ} :
    {A : Type ℓ} {B : Type κ} (g : A → B) (xs : List A) (i : ℕ) (a : A)
    → get_elem? xs i ≡ some a
    → get_elem? (map g xs) i ≡ some (g a)
get_elem?-over g [] i a found = cc found
get_elem?-over g (x ∷ xs) zero a found =
    ap (λ o. elim o [ none ↦ none | some x ↦ some (g x) ]) found
get_elem?-over g (x ∷ xs) (suc i) a found = get_elem?-over g xs i a found

module _ {r : RtpLib} where
  -- A packet in the queue, as the writer of the interceptor was called with it.
  abbrev pub call_for : Packet r → Write r
  call_for p = record {
    packet = record { header = p.header; payload = p.payload };
    attributes = p.attributes;
  }

  -- The writer of scream/sender_interceptor.go returns no error.
  abbrev pub scream_writer : Writer r
  scream_writer before w = none

module _ {r : RtpLib} {f : FloatLib} (lib : TxLib r f) where
  -- `loopPacingTimer` of a new stream, at its first `select`.
  abbrev pub new_loop : lib.Tx → Loop lib
  new_loop tx = record { place = selecting; timer_set = false; queue = new_queue; tx = tx }

  -- What leaves the queue of a new stream are the packets that were enqueued, in order.
  gone-arrivals :
      (ssrc : ℕ) (tx : lib.Tx) (es : List (Event r f)) (i : ℕ) (p : Packet r)
      → get_elem? (gone (run lib ssrc (new_loop tx) es).1) i ≡ some p
      → get_elem? (arrivals es) i ≡ some p
  unfolding new_queue
  gone-arrivals ssrc tx es i p found =
      ap (λ ps. get_elem? ps i) (gone-run lib ssrc (new_loop tx) es)
      ∙ get_elem?-append _ _ i p found

module _ {r : RtpLib} {f : FloatLib} (h : H264Lib) (l : PacketLib r) (lib : TxLib r f)
    (c : Config) where
  -- With the transport quic-prio and SCReAM, where the packets that are enqueued are those that the
  -- media source writes, in order: whatever the congestion control answers, and however its events
  -- interleave with them, for each packet that the pacing loop writes, and that the media stream of
  -- the QUIC sender then sends without an error: the packet is that of a frame of the source, at
  -- the same place in the order; its bytes are those of the flow ID, the marshalled header and the
  -- payload; and it goes on a stream of its own exactly if these are more than 1300 or `isKeyFrame`
  -- takes the frame for a key frame, and in a datagram otherwise.
  pub run-OnStream :
      (fl : Flags) (inputs : List Input) (ssrc : ℕ) (tx : lib.Tx) (es : List (Event r f)) (i : ℕ)
      (p : Packet r) (id_bytes header_buf : List ℕ) (now : ℕ) (s : Sending)
      → fl.transport ≡ "quic-prio"
      → map call_for (arrivals es)
        ≡ (play f h l scream_writer c (use_gst_packetizer fl.transport) inputs).0
      → get_elem? (run lib ssrc (new_loop lib tx) es).1 i ≡ some (written, p)
      → r.marshal p.header ≡ ok header_buf
      → media_write r (quic_sender_config fl) id_bytes now p.header p.payload p.attributes ≡ ok s
      → (key : Bool) × (get_elem? (source_packets f h l c inputs) i
          ≡ some (key, (call_for p).packet))
        × (bytes_of s ≡ id_bytes ++ (header_buf ++ p.payload))
        × (OnStream s ↔ ((1300 < length (id_bytes ++ (header_buf ++ p.payload))) ⊎ (key ≡ true)))
  run-OnStream fl inputs ssrc tx es i p id_bytes header_buf now s prio source left marshalled sent =
      let out = (run lib ssrc (new_loop lib tx) es).1 in
      let arrived =
        gone-arrivals lib ssrc tx es i p (get_elem?-over (λ x. x.1) out i (written, p) left) in
      let called = get_elem?-over call_for (arrivals es) i p arrived in
      play-OnStream f h l scream_writer c fl inputs i (call_for p) id_bytes header_buf now s prio
        (ap (λ ws. get_elem? ws i) (sym source) ∙ called) marshalled sent
