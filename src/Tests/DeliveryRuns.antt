-- ===== src/Tests/DeliveryRuns.antt =====
-- Packets on their way from the writers to the media sinks, and reports on their way back, at
-- concrete inputs.
use mathlib.Core.List.{Perm}
use mathlib.Core.List.Perm
use rtp_over_quic.Base.{ℕ, ◌≡◌, refl, List, [], ◌∷◌, ◌++◌, map, none, some, ok, All, arith, length}
use rtp_over_quic.Logging.{Os, get_log_file, exists, discards}
use rtp_over_quic.Quic.Receiver.{got, read_from_network}
use rtp_over_quic.Quic.Sender.{on_dgram, default_config, media_stream, choose}
use rtp_over_quic.Rtp.Registry.{Constructors}
use rtp_over_quic.Scream.Feedback.{RtcpPacket, cc_feedback_report, timestamp_of}
use rtp_over_quic.Scream.Feedback as Feedback
use rtp_over_quic.Scream.Receiver.{Event, ticks, Receiver, running, new_receiver, run}
use rtp_over_quic.Tcp.Framing.{eof, frame}
use rtp_over_quic.Tcp.Framing.Trip.{conn}
use rtp_over_quic.Udp.Server.{closed}
use rtp_over_quic.Udp.Transport.Trip.{Sent, read_of}
use rtp_over_quic.Cmd.Setup.{ReceiveFlags, new_receiver_controller}
use rtp_over_quic.Cmd.Delivery.{Stream, Packages, receive_udp, receive_tcp, receive_quic}
use rtp_over_quic.Cmd.Delivery.Sinks.{SinksFrom, sent_by}
use rtp_over_quic.Cmd.Delivery.Trip.{IsCalm, receive_udp-sinks}
use rtp_over_quic.Cmd.Delivery.Connections.{
  Message, written, whole, arrive_all, receive_tcp-sink, receive_quic-sink,
}
use rtp_over_quic.Cmd.Delivery.Connections as Connections
use rtp_over_quic.Cmd.Reports.{fed, send_reports, read_reports, written_reports, run-read_reports}
use rtp_over_quic.Tests.Packages.{small_rtp, thousandths, counting, one_symbol, one_symbol-IsVarint}

-- Sinks take everything, packets have a number for a header, and pion's interceptors change
-- nothing.
abbrev taking : Packages small_rtp
taking = record {
  write = λ before b. some (length b);
  unmarshal = λ b. some (0, b);
  clock = λ before. 7;
  build_error = λ registry. none;
  bind = λ factory reader. reader;
}

taking-IsCalm : IsCalm taking
taking-IsCalm = record { builds = λ registry. refl; calls = λ factory inner writes. writes }

abbrev quiet_os : Os
quiet_os = record {
  create = λ file. none;
  stat = λ file. exists;
  make_all = λ file. none;
  open_truncated = λ file. none;
  trim_right = λ path. path;
}

abbrev no_errors : Constructors
no_errors factory = none

abbrev scream_flags : ReceiveFlags
scream_flags = record {
  codec = "h264";
  rtp_dump_file = "";
  rtcp_dump_file = "";
  rtcp_feedback = "rfc8888";
}

-- Two packets of one sender, and one of another.
abbrev three_packets : List (Sent small_rtp)
three_packets =
    record { addr = 1; header = 258; payload = 9 ∷ []; header_buf = 1 ∷ 2 ∷ [] }
    ∷ record { addr = 2; header = 0; payload = []; header_buf = 0 ∷ 0 ∷ [] }
    ∷ record { addr = 1; header = 259; payload = 8 ∷ []; header_buf = 1 ∷ 3 ∷ [] }
    ∷ []

abbrev both_sinks : ℕ → List (List ℕ)
both_sinks addr = sent_by addr ((1, 1 ∷ 2 ∷ 9 ∷ []) ∷ (2, 0 ∷ 0 ∷ []) ∷ (1, 1 ∷ 3 ∷ 8 ∷ []) ∷ [])

receive_udp-sinks_example :
    SinksFrom
      (receive_udp taking
        (ok tt)
        (new_receiver_controller quiet_os no_errors scream_flags)
        (map read_of three_packets ++ closed ∷ []))
      both_sinks
unfolding get_log_file
receive_udp-sinks_example =
    receive_udp-sinks taking quiet_os no_errors scream_flags discards discards three_packets
      (closed ∷ []) taking-IsCalm (λ factory. refl) refl refl
      ((refl, omega arith), ((refl, omega arith), ((refl, omega arith), tt)))

abbrev first_message : Message small_rtp
first_message = record { header = 258; payload = 9 ∷ []; header_buf = 1 ∷ 2 ∷ [] }

abbrev second_message : Message small_rtp
second_message = record { header = 3; payload = []; header_buf = 0 ∷ 3 ∷ [] }

-- The connection ends behind the length of a third frame.
receive_tcp-sink_example :
    (s : Stream small_rtp) × (receive_tcp taking
        (ok tt)
        (new_receiver_controller quiet_os no_errors scream_flags)
        4
        (conn (written (first_message ∷ second_message ∷ []) ++ 0 ∷ 1 ∷ []) eof)
      ≡ ok s)
    × (s.sink ≡ (1 ∷ 2 ∷ 9 ∷ []) ∷ (0 ∷ 3 ∷ []) ∷ [])
unfolding get_log_file frame
receive_tcp-sink_example =
    receive_tcp-sink taking quiet_os no_errors scream_flags discards discards taking-IsCalm
      (λ factory. refl) refl refl (first_message ∷ second_message ∷ []) (5 ∷ []) (0 ∷ 1 ∷ []) 5 []
      ((refl, omega arith), ((refl, omega arith), tt)) (omega arith) refl

-- The first packet goes in a datagram, and the second one too.
abbrev in_datagrams : List (Connections.Sent small_rtp)
in_datagrams =
    record {
      message = first_message;
      attributes = none;
      now = 1;
      sending = on_dgram (5 ∷ 1 ∷ 2 ∷ 9 ∷ []) none;
    }
    ∷ record {
      message = second_message;
      attributes = none;
      now = 2;
      sending = on_dgram (5 ∷ 0 ∷ 3 ∷ []) none;
    }
    ∷ []

in_datagrams-Sends : All (Connections.Sends default_config one_symbol 5) in_datagrams
unfolding media_stream default_config choose
in_datagrams-Sends = ((refl, refl), ((refl, refl), tt))

receive_quic-sink_example :
    let pkts = arrive_all default_config one_symbol 5 in_datagrams in
    (s : Stream small_rtp) × (receive_quic taking
        (ok tt)
        (new_receiver_controller quiet_os no_errors scream_flags)
        one_symbol
        pkts
      ≡ ok s)
    × Perm s.sink ((1 ∷ 2 ∷ 9 ∷ []) ∷ (0 ∷ 3 ∷ []) ∷ [])
unfolding get_log_file
receive_quic-sink_example =
    receive_quic-sink taking quiet_os no_errors scream_flags discards discards taking-IsCalm
      (λ factory. refl) refl refl default_config one_symbol 5 in_datagrams
      (arrive_all default_config one_symbol 5 in_datagrams) one_symbol-IsVarint (omega arith)
      in_datagrams-Sends (Perm.refl (arrive_all default_config one_symbol 5 in_datagrams))

-- A receiver with one stream, whose ticker makes a report of three packets.
abbrev with_stream : Receiver counting
with_stream = record (new_receiver counting) { rxs = (0, 3) ∷ []; loop = running; ticker = running }

abbrev one_tick : List (Event small_rtp)
one_tick = ticks 6 ∷ []

run-read_reports_example :
    let ms = written_reports (run thousandths counting 10 with_stream one_tick).1 in
    let msgs = send_reports one_symbol ok ms in
    (acts : List Feedback.Act) × (read_reports thousandths
        (λ b. ok (cc_feedback_report [] ∷ []))
        (λ more. 0)
        []
        (read_from_network one_symbol (map got msgs)).0
      ≡ ok acts)
    × (fed acts ≡ (3 ∷ []) ∷ [])
unfolding run
run-read_reports_example =
    run-read_reports thousandths counting 10 with_stream one_tick one_symbol ok
      (λ b. ok (cc_feedback_report [] ∷ [])) (λ more. 0) [] ((3 ∷ []) ∷ []) one_symbol-IsVarint refl
      ((cc_feedback_report [] ∷ [], refl, (tt, tt), refl), tt)
