-- ===== src/Scream/Receiver.antt =====
-- scream/receiver_interceptor.go: the goroutines that feed received packets to scream-go's
-- receivers and write their feedback, and the reader and the streams that they serve. It is a
-- machine that takes one event at a time; each event holds `screamRxMu` while it uses the map.
pub mod Arrivals
pub mod Spacing
pub mod Closing
pub mod Factory
use rtp_over_quic.Base.{
  ℕ, ◌+◌, ◌≡◌, refl, Bool, true, false, List, [], ◌∷◌, ◌++◌, Option, none, some, Outcome, ok, err,
  ◌>>=◌, if◌then◌else◌, ltb, ◌==◌, length, String, ◌||◌,
}
use rtp_over_quic.Base.Assoc.{has_key, delete_key, update_key}
use rtp_over_quic.Pion.{RtpLib, FloatLib, Attributes}
use rtp_over_quic.Scream.Queue.{Packet, size_of}
use rtp_over_quic.Scream.Ntp.{get_time_ntp, stream_support_scream}
use rtp_over_quic.Scream.Feedback.{timestamp_of}

-- scream-go's receiver, which is not in the repository: `NewRx`, `Receive` with the time, the SSRC,
-- the size and the sequence number, and `CreateStandardizedFeedback` with the time and the mark.
pub record RxLib : Type 1 where
  pub Rx : Type 0
  pub new_rx : ℕ → Rx
  pub receive : Rx → ℕ → ℕ → ℕ → ℕ → Rx
  pub create_standardized_feedback : Rx → ℕ → Bool → Rx × Option (List ℕ)

-- `loop`: before its first packet, in its loop, or returned. `loopFeedbackSender`: not started, in
-- its loop, or returned.
pub data Place : Type 0 where
  starting running returned : Place

-- What happens next: `loop` takes a packet from the channel, with the time that it reads
-- afterwards; the ticker of `loopFeedbackSender` fires; a stream is bound or unbound; the
-- interceptor is closed; one of the goroutines chooses the case of the closed channel.
pub data Event (r : RtpLib) : Type 0 where
  arrives : Packet r → ℕ → Event r
  ticks : ℕ → Event r
  binds unbinds : ℕ → Event r
  closes loop_leaves ticker_leaves : Event r

-- A call of `Receive`, or a call of `Write` with the report that `Unmarshal` makes of the bytes;
-- its error is only logged.
pub data Act : Type 0 where
  receives : ℕ → ℕ → ℕ → ℕ → Act
  writes : List ℕ → Act

-- `rxs` is the map `screamRx`, in the order in which the runtime happens to visit it.
pub record Receiver (x : RxLib) : Type 0 where
  pub rxs : List (ℕ × x.Rx)
  pub loop : Place
  pub ticker : Place
  pub last_feedback : ℕ
  pub closed : Bool

-- `NewInterceptor`, after `BindRTCPWriter` has started `loop`.
abbrev pub new_receiver : (x : RxLib) → Receiver x
new_receiver x = record {
  rxs = [];
  loop = starting;
  ticker = starting;
  last_feedback = 0;
  closed = false;
}

abbrev pub written : Option (List ℕ) → List Act
written none = []
written (some feedback) = writes feedback ∷ []

module _ (f : FloatLib) (x : RxLib) (interval : ℕ) where
  -- The loop over the map: a report of each receiver that has one.
  unfoldable pub report_all : ℕ → Bool → List (ℕ × x.Rx) → List (ℕ × x.Rx) × List Act
  report_all now mark [] = ([], [])
  report_all now mark ((k, rx) ∷ rest) =
      let (rx', feedback) = x.create_standardized_feedback rx (get_time_ntp f now) mark in
      let (rest', acts) = report_all now mark rest in ((k, rx') ∷ rest', written feedback ++ acts)

  -- `if now.Sub(lastFeedback) > r.interval { … }`
  unfoldable pub report_if_due : Bool → ℕ → Receiver x → Receiver x × List Act
  unfolding report_all
  report_if_due marker now s =
      if ltb (s.last_feedback + interval) now
      then (let (rxs, acts) = report_all now marker s.rxs in
          (record s { rxs = rxs; last_feedback = now }, acts))
      else (s, [])

  unfoldable pub tick : Place → ℕ → Receiver x → Receiver x × List Act
  unfolding report_all
  tick running now s = let (rxs, acts) = report_all now true s.rxs in (record s { rxs = rxs }, acts)
  tick _ now s = (s, [])

module _ {r : RtpLib} (f : FloatLib) (x : RxLib) (interval : ℕ) where
  -- `if rx, ok := r.screamRx[pkt.rtp.SSRC]; ok { rx.Receive(…) }`
  unfoldable pub deliver : Packet r → List (ℕ × x.Rx) → List (ℕ × x.Rx) × List Act
  deliver p rxs =
      let t = get_time_ntp f p.timestamp in
      let ssrc = r.ssrc p.header in
      let size = size_of p in
      let seq = r.sequence_number p.header in
      if has_key ssrc rxs
      then (update_key ssrc (λ rx. x.receive rx t ssrc size seq) rxs, receives t ssrc size seq ∷ [])
      else (rxs, [])

  -- A packet that `loop` takes: the first one starts `loopFeedbackSender`.
  unfoldable pub take_packet : Place → Packet r → ℕ → Receiver x → Receiver x × List Act
  unfolding deliver report_if_due
  take_packet starting p now s =
      let (rxs, acts) = deliver p s.rxs in
      (record s { rxs = rxs; loop = running; ticker = running; last_feedback = now }, acts)
  take_packet running p now s =
      let (rxs, acts) = deliver p s.rxs in
      let (s', reports) =
        report_if_due f x interval (r.marker p.header) now (record s { rxs = rxs }) in
      (s', acts ++ reports)
  take_packet returned p now s = (s, [])

  unfoldable pub step : Receiver x → Event r → Receiver x × List Act
  unfolding take_packet tick
  step s (arrives p now) = take_packet s.loop p now s
  step s (ticks now) = tick f x interval s.ticker now s
  step s (binds ssrc) = (record s { rxs = (ssrc, x.new_rx ssrc) ∷ delete_key ssrc s.rxs }, [])
  step s (unbinds ssrc) = (record s { rxs = delete_key ssrc s.rxs }, [])
  step s closes = (record s { closed = true }, [])
  step s loop_leaves = ((if s.closed then record s { loop = returned } else s), [])
  step s ticker_leaves = ((if s.closed then record s { ticker = returned } else s), [])

  unfoldable pub run : Receiver x → List (Event r) → Receiver x × List Act
  unfolding step
  run s [] = (s, [])
  run s (e ∷ es) = let (s', acts) = step s e in let (s'', more) = run s' es in (s'', acts ++ more)

-- The reader that `BindRemoteStream` returns: what the inner reader reads is returned with its
-- length, and a packet goes to the channel, without its attributes. `now` is `time.Now()`.
unfoldable pub read_rtp :
    {r : RtpLib}
    → (List ℕ → Outcome (r.Header × List ℕ))
    → ℕ
    → Attributes
    → Outcome (List ℕ × Attributes)
    → Outcome (ℕ × Attributes × Packet r)
unfolding timestamp_of
read_rtp unmarshal now a read = do
  (b, attr) ← read
  (header, payload) ← unmarshal b
  ok (
    length b,
    attr,
    record {
      header = header;
      payload = payload;
      timestamp = timestamp_of now a;
      attributes = none;
    },
  )

-- `BindRemoteStream`: the event that binds the stream, or none where the reader is passed through.
unfoldable pub bind_remote_stream : {r : RtpLib} → ℕ → List (String × String) → Option (Event r)
bind_remote_stream ssrc rtcp_feedback =
    if stream_support_scream rtcp_feedback then some (binds ssrc) else none
