-- ===== src/Tests/QueuedRuns.antt =====
-- Packets on their way to scream-go's receiver, at concrete inputs.
use rtp_over_quic.Base.{ℕ, ◌≡◌, refl, List, [], ◌∷◌, map, none, some, length}
use rtp_over_quic.Scream.Feedback.{timestamp_of}
use rtp_over_quic.Scream.Receiver.{
  Event, arrives, binds, ticks, new_receiver, run, step, bind_remote_stream, read_rtp,
}
use rtp_over_quic.Cmd.Delivery.{Packages, sink_reader, scream_reader, bind_factory, handle_packets}
use rtp_over_quic.Cmd.Delivery.Queued.{untimed, fed_by, TakesAll, handle_packets-received}
use rtp_over_quic.Pion.{RtpLib, Attributes, no_attributes}
use rtp_over_quic.Scream.Queue.{Packet}
use rtp_over_quic.Scream.Ntp.{stream_support_scream}
use rtp_over_quic.Scream.Receiver.Arrivals.{received}
use rtp_over_quic.Tests.Packages.{small_rtp, thousandths, counting}

-- Packets with the SSRC 0, whose sequence number is their first byte.
abbrev zero_rtp : RtpLib
zero_rtp = record small_rtp { ssrc = λ header. 0 }

abbrev numbered : Packages zero_rtp
numbered = record {
  write = λ before b. some (length b);
  unmarshal = λ b. elim b [ [] ↦ none | n ∷ rest ↦ some (n, rest) ];
  clock = λ before. 7;
  build_error = λ registry. none;
  bind = λ factory reader. reader;
}

-- An empty buffer between two packets.
abbrev three_buffers : List (List ℕ × Attributes)
three_buffers = (4 ∷ 1 ∷ [], no_attributes) ∷ ([], no_attributes) ∷ (5 ∷ [], no_attributes) ∷ []

abbrev numbered_packet : ℕ → List ℕ → Packet zero_rtp
numbered_packet seq payload = record {
  header = seq;
  payload = payload;
  timestamp = 7;
  attributes = none;
}

abbrev taken_packets : List (Event zero_rtp)
taken_packets =
    arrives (numbered_packet 4 (1 ∷ [])) 8 ∷ ticks 9 ∷ arrives (numbered_packet 5 []) 10 ∷ []

numbered-TakesAll : TakesAll (sink_reader numbered)
unfolding sink_reader
numbered-TakesAll s b a = (a, refl, refl)

handle_packets-received_example :
    map untimed (
      received
        (run {r = zero_rtp} thousandths counting 10
          (step {r = zero_rtp} thousandths counting 10 (new_receiver counting) (binds 0)).0
          taken_packets).1)
    ≡ fed_by numbered (map (λ p. p.0) three_buffers)
unfolding handle_packets bind_factory bind_remote_stream stream_support_scream scream_reader
    read_rtp sink_reader timestamp_of
handle_packets-received_example =
    handle_packets-received numbered thousandths counting 10 (sink_reader numbered) three_buffers
      taken_packets numbered-TakesAll (tt, (tt, (tt, tt))) refl
