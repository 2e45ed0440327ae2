-- ===== src/Tests/InterceptorRuns.antt =====
-- SCReAM's sender interceptor at concrete streams and reports.
use rtp_over_quic.Base.{ℕ, ◌≡◌, refl, false, List, [], ◌∷◌, none, some, Outcome, ok, All}
use rtp_over_quic.Pion.{no_attributes}
use rtp_over_quic.Scream.Queue.{new_queue}
use rtp_over_quic.Scream.Ntp.{get_time_ntp}
use rtp_over_quic.Scream.Feedback.{
  RtcpPacket, raw_packet, other_packet, Act, read_rtcp, timestamp_of, IsProper, feeds_of,
  read_rtcp-acts,
}
use rtp_over_quic.Scream.Sender.{
  Writer, Write, write_all, registers, starts_loop, lookup, new_local_stream,
}
use rtp_over_quic.Scream.Sender.Streams.{framed, write_all-acts}
use rtp_over_quic.Tests.Packages.{small_rtp, thousandths, always}

-- One report for SSRC 7.
abbrev report : List ℕ
report =
    139 ∷ 205 ∷ 0 ∷ 5 ∷ 0 ∷ 0 ∷ 0 ∷ 1 ∷ 0 ∷ 0 ∷ 0 ∷ 7 ∷ 0 ∷ 1 ∷ 0 ∷ 1 ∷ 128 ∷ 0 ∷ 0 ∷ 0 ∷ 1 ∷ 1 ∷ 1
    ∷ 1 ∷ []

abbrev unmarshal : List ℕ → Outcome (List RtcpPacket)
unmarshal bytes = ok (other_packet ∷ raw_packet bytes ∷ [])

read_rtcp-acts_example :
    (acts : List Act) × (read_rtcp thousandths unmarshal 0
        (7 ∷ [])
        no_attributes
        (ok (report, no_attributes))
      ≡ ok (24, no_attributes, acts))
    × All (IsProper (get_time_ntp thousandths (timestamp_of 0 no_attributes)) report (7 ∷ [])) acts
    × (feeds_of acts ≡ 1)
read_rtcp-acts_example =
    read_rtcp-acts thousandths unmarshal 0 (7 ∷ []) no_attributes report no_attributes
      (other_packet ∷ raw_packet report ∷ []) refl (tt, (refl, tt))

abbrev new_writer : Writer always
new_writer = record { initialized = false; queue = new_queue; streams = []; tx = 0 }

abbrev one_write : Write small_rtp
one_write = record { now = 5; header = 258; payload = 9 ∷ []; attributes = none }

write_all-acts_example :
    let (w, acts, sizes) = write_all always 0 1 2 3 (one_write ∷ one_write ∷ []) new_writer in
    (acts ≡ registers 0 ∷ starts_loop 0 ∷ framed always 0 (one_write ∷ one_write ∷ []))
    × (sizes ≡ 3 ∷ 3 ∷ [])
    × (lookup 0 w.streams ≡ some new_local_stream)
write_all-acts_example = write_all-acts always 0 1 2 3 one_write (one_write ∷ []) new_writer refl
