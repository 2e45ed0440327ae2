-- ===== src/Scream/Feedback.antt =====
-- scream/sender_interceptor.go, `BindRTCPReader`: feedback goes to the congestion control, and the
-- pacing loops of the streams that it names are woken.
use rtp_over_quic.Base.{
  ℕ, ◌+◌, ◌%◌, ◌≡◌, refl, ap, true, List, [], ◌∷◌, ◌++◌, Option, none, some, Outcome, ok, panic,
  ◌>>=◌, if◌then◌else◌, All, All-append, length, mem_nat, arith, Bool-cases, inl, inr, suc,
}
use rtp_over_quic.Pion.{
  FloatLib, Attributes, of_time, of_reliability, of_flow_id, of_transport, of_other,
}
use rtp_over_quic.Scream.Ntp.{get_time_ntp}
use rtp_over_quic.Scream.Ssrcs.{ReportBlock, extract_ssrcs, extract_ssrcs_report}
use rtp_over_quic.Scream.Ssrcs.Safety.{extract_ssrcs-Returns}

-- What `rtcp.Unmarshal` gives, by the types that the code tells apart.
pub data RtcpPacket : Type 0 where
  raw_packet : List ℕ → RtcpPacket
  cc_feedback_report : List ReportBlock → RtcpPacket
  other_packet : RtcpPacket

-- A call of `IncomingStandardizedFeedback`, or a send on the channel `newFeedback` of a stream.
pub data Act : Type 0 where
  feeds : ℕ → List ℕ → Act
  signals : ℕ → Act

-- The time of the packet is that of its attributes, if they have one.
unfoldable pub timestamp_of : ℕ → Attributes → ℕ
timestamp_of now a = elim a.timestamp [
  | none ↦ now
  | some (of_time t) ↦ t
  | some (of_reliability b) ↦ now
  | some (of_flow_id id) ↦ now
  | some (of_transport mode) ↦ now
  | some of_other ↦ now
]

abbrev pub returned : Option (Outcome (List ℕ)) → Outcome (List ℕ)
returned none = panic
returned (some o) = o

-- The type switch: `none` skips the packet.
unfoldable ssrcs_of : RtcpPacket → Option (Outcome (List ℕ))
ssrcs_of (raw_packet bytes) = some (returned (extract_ssrcs bytes))
ssrcs_of (cc_feedback_report blocks) = some (ok (extract_ssrcs_report blocks))
ssrcs_of other_packet = none

-- The loop over the SSRCs; `streams` are the keys of `rtpStreams`.
unfoldable signal_all : List ℕ → List ℕ → List Act
signal_all streams [] = []
signal_all streams (ssrc ∷ ssrcs) =
    let rest = signal_all streams ssrcs in
    if mem_nat ssrc streams then signals ssrc ∷ rest else rest

-- One round of the loop over the packets; `t` and `report` are the same in all rounds.
unfoldable handle_packet : ℕ → List ℕ → List ℕ → RtcpPacket → Outcome (List Act)
unfolding ssrcs_of signal_all
handle_packet t report streams pkt = elim (ssrcs_of pkt) [
  | none ↦ ok []
  | some found ↦ (do ssrcs ← found; ok (feeds t report ∷ signal_all streams ssrcs))
]

unfoldable handle_packets : ℕ → List ℕ → List ℕ → List RtcpPacket → Outcome (List Act)
unfolding handle_packet
handle_packets t report streams [] = ok []
handle_packets t report streams (pkt ∷ pkts) = do
  acts ← handle_packet t report streams pkt
  more ← handle_packets t report streams pkts
  ok (acts ++ more)

-- The reader that is returned: what the inner reader reads, as `b[:n]` with the attributes, is
-- returned with its length, and the acts are what happens on the way. `now` is `time.Now()`.
unfoldable pub read_rtcp :
    FloatLib
    → (List ℕ → Outcome (List RtcpPacket))
    → ℕ
    → List ℕ
    → Attributes
    → Outcome (List ℕ × Attributes)
    → Outcome (ℕ × Attributes × List Act)
unfolding handle_packets timestamp_of
read_rtcp f unmarshal now streams a read = do
  (b, attr) ← read
  pkts ← unmarshal b
  acts ← handle_packets (get_time_ntp f (timestamp_of now a)) b streams pkts
  ok (length b, attr, acts)

-- The length of a raw packet is a multiple of 4, as RTCP has it.
abbrev pub IsWhole : RtcpPacket → Type 0
IsWhole (raw_packet bytes) = length bytes % 4 ≡ 0
IsWhole (cc_feedback_report blocks) = Unit {0}
IsWhole other_packet = Unit {0}

-- Only streams that are there are signalled, and the congestion control only gets this report.
abbrev pub IsProper : ℕ → List ℕ → List ℕ → Act → Type 0
IsProper t report streams (feeds t' report') = (t' ≡ t) × (report' ≡ report)
IsProper t report streams (signals ssrc) = mem_nat ssrc streams ≡ true

abbrev pub feeds_of : List Act → ℕ
feeds_of [] = 0
feeds_of (feeds t report ∷ acts) = suc (feeds_of acts)
feeds_of (signals ssrc ∷ acts) = feeds_of acts

abbrev pub reports : List RtcpPacket → ℕ
reports [] = 0
reports (other_packet ∷ pkts) = reports pkts
reports (raw_packet bytes ∷ pkts) = suc (reports pkts)
reports (cc_feedback_report blocks ∷ pkts) = suc (reports pkts)

signal_all-IsProper :
    (t : ℕ) (report streams ssrcs : List ℕ)
    → All (IsProper t report streams) (signal_all streams ssrcs)
      × (feeds_of (signal_all streams ssrcs) ≡ 0)
unfolding signal_all
signal_all-IsProper t report streams [] = (tt, refl)
signal_all-IsProper t report streams (ssrc ∷ ssrcs) =
    let (proper, none_fed) = signal_all-IsProper t report streams ssrcs in
    elim (Bool-cases (mem_nat ssrc streams)) [
      | inl known ↦ rw known ((known, proper), none_fed)
      | inr unknown ↦ rw unknown (proper, none_fed)
    ]

abbrev Handled : ℕ → List ℕ → List ℕ → ℕ → Outcome (List Act) → Type 0
Handled t report streams n o =
    (acts : List Act) × (o ≡ ok acts) × All (IsProper t report streams) acts × (feeds_of acts ≡ n)

feeds_of-append : (xs ys : List Act) → feeds_of (xs ++ ys) ≡ feeds_of xs + feeds_of ys
feeds_of-append [] ys = omega arith
feeds_of-append (feeds t report ∷ xs) ys = omega (arith, feeds_of-append xs ys)
feeds_of-append (signals ssrc ∷ xs) ys = feeds_of-append xs ys

handle_packet-Handled :
    (t : ℕ) (report streams : List ℕ) (pkt : RtcpPacket)
    → IsWhole pkt
    → Handled t report streams (reports (pkt ∷ [])) (handle_packet t report streams pkt)
unfolding handle_packet ssrcs_of
handle_packet-Handled t report streams other_packet whole = ([], refl, tt, refl)
handle_packet-Handled t report streams (cc_feedback_report blocks) whole =
    let (proper, none_fed) = signal_all-IsProper t report streams (extract_ssrcs_report blocks) in
    (_, refl, ((refl, refl), proper), ap suc none_fed)
handle_packet-Handled t report streams (raw_packet bytes) whole =
    let (ssrcs, e) = extract_ssrcs-Returns bytes whole in
    let (proper, none_fed) = signal_all-IsProper t report streams ssrcs in
    (feeds t report ∷ signal_all streams ssrcs, rw e refl, ((refl, refl), proper), ap suc none_fed)

reports_cons :
    (pkt : RtcpPacket) (pkts : List RtcpPacket)
    → reports (pkt ∷ pkts) ≡ reports (pkt ∷ []) + reports pkts
reports_cons (raw_packet bytes) pkts = omega arith
reports_cons (cc_feedback_report blocks) pkts = omega arith
reports_cons other_packet pkts = omega arith

handle_packets-Handled :
    (t : ℕ) (report streams : List ℕ) (pkts : List RtcpPacket)
    → All IsWhole pkts
    → Handled t report streams (reports pkts) (handle_packets t report streams pkts)
unfolding handle_packets
handle_packets-Handled t report streams [] whole = ([], refl, tt, refl)
handle_packets-Handled t report streams (pkt ∷ pkts) (whole, wholes) =
    let (acts, e, proper, fed) = handle_packet-Handled t report streams pkt whole in
    let (more, e', proper', fed') = handle_packets-Handled t report streams pkts wholes in
    (
      acts ++ more,
      rw (e, e') refl,
      All-append (IsProper t report streams) acts more proper proper',
      omega (arith, fed, fed', feeds_of-append acts more, reports_cons pkt pkts),
    )

-- If the inner reader succeeds, `Unmarshal` does, and every raw packet has a length that is a
-- multiple of 4: the reader returns the length and the attributes unchanged; the congestion control
-- gets the bytes that were read once for each report among the packets, with the time of the
-- attributes; and only streams that are registered are signalled.
pub read_rtcp-acts :
    (f : FloatLib) (unmarshal : List ℕ → Outcome (List RtcpPacket)) (now : ℕ) (streams : List ℕ)
    (a : Attributes) (b : List ℕ) (attr : Attributes) (pkts : List RtcpPacket)
    → unmarshal b ≡ ok pkts
    → All IsWhole pkts
    → (acts : List Act) × (read_rtcp f unmarshal now streams a (ok (b, attr))
        ≡ ok (length b, attr, acts))
      × All (IsProper (get_time_ntp f (timestamp_of now a)) b streams) acts
      × (feeds_of acts ≡ reports pkts)
unfolding read_rtcp
read_rtcp-acts f unmarshal now streams a b attr pkts parsed whole =
    let (acts, e, proper, fed) =
      handle_packets-Handled (get_time_ntp f (timestamp_of now a)) b streams pkts whole in
    (acts, rw (parsed, e) refl, proper, fed)
