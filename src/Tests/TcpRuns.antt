-- ===== src/Tests/TcpRuns.antt =====
-- RFC 4571 framing, and the reports of a TCP sender, at concrete messages.
use rtp_over_quic.Base.{ℕ, ◌≡◌, refl, List, [], ◌∷◌, map, arith}
use rtp_over_quic.Tcp.Framing.{read_from_network, eof}
use rtp_over_quic.Tcp.Framing.Trip.{conn, frames}
use rtp_over_quic.Tcp.Feedback.{Event, copies, meets, processes, cut, run, waiting}
use rtp_over_quic.Tcp.Feedback.Overlaid.{AreReports, in_turn, run-reports}

abbrev two_messages : List (List ℕ)
two_messages = (1 ∷ 2 ∷ 3 ∷ []) ∷ (4 ∷ []) ∷ []

abbrev zeros : List ℕ
zeros = 0 ∷ 0 ∷ 0 ∷ 0 ∷ []

-- The second message is copied before the first one is processed.
abbrev overlapping : List Event
overlapping = copies ∷ meets ∷ copies ∷ processes ∷ meets ∷ processes ∷ []

run-reports_example :
    let read = (read_from_network 2 (conn (frames two_messages) eof)).0 in
    AreReports (run (waiting read zeros) overlapping) two_messages
    × (run (waiting read zeros) (in_turn two_messages) ≡ map cut two_messages)
run-reports_example =
    run-reports two_messages eof zeros overlapping (omega arith, (omega arith, tt))

-- The first report is processed with the second one over it.
run-overlapping : run (waiting two_messages zeros) overlapping ≡ (4 ∷ 2 ∷ 3 ∷ []) ∷ (4 ∷ []) ∷ []
unfolding run
run-overlapping = refl
