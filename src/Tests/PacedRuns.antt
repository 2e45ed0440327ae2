-- ===== src/Tests/PacedRuns.antt =====
-- The transport quic-prio with SCReAM, at one key frame.
use rtp_over_quic.Base.{◌≡◌, refl, ◌<◌, Bool, true, List, [], ◌∷◌, map, some, ◌⊎◌, ◌↔◌, get_elem?}
use rtp_over_quic.Media.Config.{payloader_for_codec}
use rtp_over_quic.Media.KeyFrame.{is_key_frame}
use rtp_over_quic.Media.Play.{with_reliability, play}
use rtp_over_quic.Media.Play.Marking.{source_packets}
use rtp_over_quic.Quic.Sender.{on_stream}
use rtp_over_quic.Quic.Sender.Choice.{OnStream, bytes_of}
use rtp_over_quic.Scream.Queue.{Packet, new_queue, enqueue, dequeue, size_of_queue}
use rtp_over_quic.Scream.Pacing.{
  Event, new_frame, round, enqueues, written, run, step, pace, decided, send, transmitted, wait_if,
  wake,
}
use rtp_over_quic.Scream.Pacing.Order.{arrivals}
use rtp_over_quic.Cmd.Transport.{use_gst_packetizer}
use rtp_over_quic.Cmd.Priority.Paced.{call_for, scream_writer, new_loop, run-OnStream}
use rtp_over_quic.Tests.Packages.{small_rtp, thousandths, always}
use rtp_over_quic.Tests.CmdRuns.{
  prio_flags, numbering, no_units, vp8_config, key_frame, first_write, first_write_sent,
}

abbrev queued : Packet small_rtp
queued = record {
  header = 0;
  payload = 2 ∷ [];
  timestamp = 3;
  attributes = some (with_reliability true);
}

abbrev paced : List (Event small_rtp thousandths)
paced = enqueues queued 10 ∷ new_frame ∷ round 5 6 ∷ []

source_lem :
    map call_for (arrivals paced)
    ≡ (play thousandths no_units numbering scream_writer vp8_config
        (use_gst_packetizer prio_flags.transport)
        key_frame).0
unfolding play use_gst_packetizer is_key_frame payloader_for_codec
source_lem = refl

leaves_lem : get_elem? (run always 7 (new_loop always 0) paced).1 0 ≡ some (written, queued)
unfolding run step pace decided send transmitted wait_if wake new_queue enqueue dequeue
    size_of_queue
leaves_lem = refl

run-OnStream_example :
    (key : Bool) × (get_elem? (source_packets thousandths no_units numbering vp8_config key_frame) 0
      ≡ some (key, first_write.packet))
    × (bytes_of (on_stream (5 ∷ 0 ∷ 0 ∷ 2 ∷ [])) ≡ 5 ∷ 0 ∷ 0 ∷ 2 ∷ [])
    × (OnStream (on_stream (5 ∷ 0 ∷ 0 ∷ 2 ∷ [])) ↔ ((1300 < 4) ⊎ (key ≡ true)))
run-OnStream_example =
    run-OnStream no_units numbering always vp8_config prio_flags key_frame 7 0 paced 0 queued
      (5 ∷ []) (0 ∷ 0 ∷ []) 0 (on_stream (5 ∷ 0 ∷ 0 ∷ 2 ∷ [])) refl source_lem leaves_lem refl
      first_write_sent
