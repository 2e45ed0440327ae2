-- ===== src/Tests/ReceiverRuns.antt =====
-- SCReAM's receiver interceptor and the local feedback at concrete packets.
use rtp_over_quic.Base.{ℕ, ◌≡◌, refl, true, List, [], ◌∷◌, none, map}
use rtp_over_quic.Scream.Queue.{Packet}
use rtp_over_quic.Scream.Receiver.{Event, arrives, ticks, Receiver, running, new_receiver}
use rtp_over_quic.Scream.Receiver.Spacing.{IsSpaced, report_times, report_times-IsSpaced}
use rtp_over_quic.Quic.Sender.{media_write}
use rtp_over_quic.Quic.Mode.{SenderConfig, dgram}
use rtp_over_quic.Quic.LocalFeedback.Acked.{Sent, received_as, event_of, run-acked}
use rtp_over_quic.Quic.LocalFeedback.{run as run_local}
use rtp_over_quic.Tests.Packages.{small_rtp, thousandths, counting}

abbrev packet : ℕ → Packet small_rtp
packet seq = record { header = seq; payload = 1 ∷ 2 ∷ []; timestamp = seq; attributes = none }

-- A stream with SSRC 7 is bound.
abbrev bound : Receiver counting
bound = record (new_receiver counting) { rxs = (7, 0) ∷ [] }

abbrev arriving : List (Event small_rtp)
arriving = arrives (packet 5) 5 ∷ ticks 6 ∷ arrives (packet 6) 20 ∷ []

abbrev looping : Receiver counting
looping = record bound { loop = running; last_feedback = 3 }

report_times-IsSpaced_example :
    IsSpaced 10 3 (report_times thousandths counting 10 looping arriving)
report_times-IsSpaced_example =
    report_times-IsSpaced thousandths counting 10 looping arriving (λ e. cc e)

abbrev local_config : SenderConfig
local_config = record {
  remote_addr = "";
  qlog_directory_name = "";
  ssl_key_log_file_name = "";
  cc = 0;
  local_rfc8888 = true;
  max_mtu = 1300;
  transport_mode = dgram;
}

-- Flow ID 0, the header of the sequence number 258, and one byte: three bytes and the header again.
abbrev one_sent : Sent small_rtp
one_sent = record {
  now = 9;
  header = 258;
  payload = 4 ∷ [];
  attributes = none;
  datagram = 0 ∷ 1 ∷ 2 ∷ 4 ∷ [];
  pkt = record { sent_ts = 9; ssrc = 7; size = 6; seq_nr = 258 };
  taken = 30;
  rtt = 4;
}

run-acked_example :
    map received_as (run_local thousandths counting 1 0 (map event_of (one_sent ∷ []))).0
    ≡ (7, 258, 6) ∷ []
unfolding media_write
run-acked_example =
    run-acked local_config (0 ∷ []) thousandths counting 1 0 (one_sent ∷ []) (refl, tt)
