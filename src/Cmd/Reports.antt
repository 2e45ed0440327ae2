-- ===== src/Cmd/Reports.antt =====
-- The way of SCReAM's feedback over QUIC: scream/receiver_interceptor.go writes reports,
-- quic/receiver.go sends them, quic/sender.go reads them, and rtp/rtcp.go's `ReadRTCP` hands them
-- to the reader of scream/sender_interceptor.go, which feeds them to the congestion control.
use rtp_over_quic.Base.{
  ℕ, ◌≡◌, refl, ap, ◌∙◌, List, [], ◌∷◌, ◌++◌, map, Outcome, ok, err, panic, ◌>>=◌, All, arith,
}
use rtp_over_quic.Pion.{RtpLib, FloatLib, Attributes, no_attributes}
use rtp_over_quic.Scream.Receiver.{RxLib, Receiver, Event, Act, receives, writes, run}
use rtp_over_quic.Scream.Feedback.{
  RtcpPacket, feeds, signals, timestamp_of, IsWhole, IsProper, feeds_of, reports, read_rtcp,
  read_rtcp-acts,
}
use rtp_over_quic.Scream.Feedback as Sender
use rtp_over_quic.Quic.Varint.{VarintLib, IsVarint}
use rtp_over_quic.Quic.Receiver.{got, write_rtcp, read_from_network}
use rtp_over_quic.Quic.Trip.{demux-write}

-- The reports of the `Write` calls, in order.
abbrev pub written_reports : List Act → List (List ℕ)
written_reports [] = []
written_reports (receives t ssrc size seq ∷ acts) = written_reports acts
written_reports (writes feedback ∷ acts) = feedback ∷ written_reports acts

-- What `WriteRTCP` sends; its error is only logged.
abbrev pub sent : Outcome (ℕ × List ℕ) → List (List ℕ)
sent (ok (n, msg)) = msg ∷ []
sent (err e) = []
sent panic = []

-- `rtcpWriter.Write([]rtcp.Packet{&fb}, interceptor.Attributes{})` for each report, where `marshal`
-- is pion's `Unmarshal` into a report and `rtcp.Marshal` of it.
unfoldable pub send_reports :
    VarintLib → (List ℕ → Outcome (List ℕ)) → List (List ℕ) → List (List ℕ)
send_reports v marshal [] = []
send_reports v marshal (feedback ∷ more) =
    sent (write_rtcp v (marshal feedback) no_attributes) ++ send_reports v marshal more

-- The rest of the acts, behind those of one report.
abbrev then_acts :
    Outcome (ℕ × Attributes × List Sender.Act)
    → Outcome (List Sender.Act)
    → Outcome (List Sender.Act)
then_acts (ok (n, attr, acts)) more = do later ← more; ok (acts ++ later)
then_acts (err e) more = more
then_acts panic more = panic

-- `ReadRTCP` on the buffers of its channel, which come without attributes. The innermost reader
-- returns the length of the buffer; `clock` gives the time of each call, from what is still to
-- come.
unfoldable pub read_reports :
    FloatLib
    → (List ℕ → Outcome (List RtcpPacket))
    → (List (List ℕ) → ℕ)
    → List ℕ
    → List (List ℕ)
    → Outcome (List Sender.Act)
unfolding read_rtcp
read_reports f unmarshal clock streams [] = ok []
read_reports f unmarshal clock streams (b ∷ bs) =
    then_acts (read_rtcp f unmarshal (clock bs) streams no_attributes (ok (b, no_attributes)))
      (read_reports f unmarshal clock streams bs)

-- The reports that the congestion control is fed.
abbrev pub fed : List Sender.Act → List (List ℕ)
fed [] = []
fed (feeds t report ∷ acts) = report ∷ fed acts
fed (signals ssrc ∷ acts) = fed acts

fed-append : (xs ys : List Sender.Act) → fed (xs ++ ys) ≡ fed xs ++ fed ys
fed-append [] ys = refl
fed-append (feeds t report ∷ xs) ys = ap (◌∷◌ report) (fed-append xs ys)
fed-append (signals ssrc ∷ xs) ys = fed-append xs ys

fed-none :
    (t : ℕ) (b streams : List ℕ) (acts : List Sender.Act)
    → All (IsProper t b streams) acts
    → feeds_of acts ≡ 0
    → fed acts ≡ []
fed-none t b streams [] proper none_fed = refl
fed-none t b streams (feeds t' report ∷ acts) proper none_fed = absurd (omega (arith, none_fed))
fed-none t b streams (signals ssrc ∷ acts) (known, proper) none_fed =
    fed-none t b streams acts proper none_fed

fed-one :
    (t : ℕ) (b streams : List ℕ) (acts : List Sender.Act)
    → All (IsProper t b streams) acts
    → feeds_of acts ≡ 1
    → fed acts ≡ b ∷ []
fed-one t b streams [] proper one = absurd (omega (arith, one))
fed-one t b streams (feeds t' report ∷ acts) ((at, same), proper) one =
    rw (same, fed-none t b streams acts proper (omega (arith, one))) refl
fed-one t b streams (signals ssrc ∷ acts) (known, proper) one = fed-one t b streams acts proper one

module _ (f : FloatLib) (unmarshal : List ℕ → Outcome (List RtcpPacket)) (clock : List (List ℕ) → ℕ)
    (streams : List ℕ) where
  -- `Unmarshal` finds one report in the bytes.
  abbrev IsReport : List ℕ → Type 0
  IsReport m =
      (pkts : List RtcpPacket) × (unmarshal m ≡ ok pkts) × All IsWhole pkts × (reports pkts ≡ 1)

  read_reports-fed :
      (ms : List (List ℕ))
      → All IsReport ms
      → (acts : List Sender.Act) × (read_reports f unmarshal clock streams ms ≡ ok acts)
        × (fed acts ≡ ms)
  unfolding read_reports
  read_reports-fed [] are = ([], refl, refl)
  read_reports-fed (m ∷ ms) ((pkts, parsed, whole, one), are) =
      let (later, more, all) = read_reports-fed ms are in
      let (acts, read, proper, count) =
        read_rtcp-acts f unmarshal (clock ms) streams no_attributes m no_attributes pkts parsed
          whole in
      (
        acts ++ later,
        rw (read, more) refl,
        fed-append acts later ∙ rw (all, fed-one _ m streams acts proper (count ∙ one)) refl,
      )

module _ (v : VarintLib) (law : IsVarint v) (marshal : List ℕ → Outcome (List ℕ)) where
  read_from_network-send_reports :
      (feedbacks ms : List (List ℕ))
      → map marshal feedbacks ≡ map ok ms
      → (read_from_network v (map got (send_reports v marshal feedbacks))).0 ≡ ms
  unfolding send_reports read_from_network write_rtcp
  read_from_network-send_reports [] [] same = refl
  read_from_network-send_reports [] (m ∷ ms) same = cc same
  read_from_network-send_reports (b ∷ bs) [] same = cc same
  read_from_network-send_reports (b ∷ bs) (m ∷ ms) same =
      let (enc, written, len) = law.writes 0 (omega arith) in
      let marshalled : marshal b ≡ ok m = cc same in
      let others : map marshal bs ≡ map ok ms = cc same in
      rw (marshalled, written, read_from_network, demux-write v law 0 enc m (omega arith) written)
        (ap (◌∷◌ m) (read_from_network-send_reports bs ms others))

module _ {r : RtpLib} (f : FloatLib) (x : RxLib) (interval : ℕ) where
  -- Whatever packets arrive at the receiver and whenever its ticker fires, and however streams come
  -- and go: if the reports that its interceptor writes marshal, and the sender's `Unmarshal` finds
  -- one report in each, then over QUIC, where no datagram is lost or reordered, the sender's
  -- congestion control is fed exactly these reports, each once, whole and in order.
  pub run-read_reports :
      (s : Receiver x) (es : List (Event r)) (v : VarintLib) (marshal : List ℕ → Outcome (List ℕ))
      (unmarshal : List ℕ → Outcome (List RtcpPacket)) (clock : List (List ℕ) → ℕ)
      (streams : List ℕ) (ms : List (List ℕ))
      → IsVarint v
      → map marshal (written_reports (run f x interval s es).1) ≡ map ok ms
      → All (IsReport f unmarshal clock streams) ms
      → let msgs = send_reports v marshal (written_reports (run f x interval s es).1) in
        (acts : List Sender.Act) × (read_reports f unmarshal clock streams
            (read_from_network v (map got msgs)).0
          ≡ ok acts)
        × (fed acts ≡ ms)
  run-read_reports s es v marshal unmarshal clock streams ms law marshals are =
      rw (read_from_network-send_reports v law marshal _ ms marshals)
        (read_reports-fed f unmarshal clock streams ms are)
