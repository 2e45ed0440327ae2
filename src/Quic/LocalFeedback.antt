-- ===== src/Quic/LocalFeedback.antt =====
-- quic/local_rfc8888.go: the sender makes RFC 8888 feedback itself, from the packets whose
-- datagrams QUIC reports as acknowledged.
pub mod Acked
pub mod Waiting
use rtp_over_quic.Base.{
  ℕ, ◌+◌, ◌*◌, ◌-◌, ◌/◌, ◌%◌, ◌^◌, ◌<◌, ◌≡◌, refl, ap, Bool, true, false, List, [], ◌∷◌, ◌++◌, map,
  Option, none, some, arith,
}
use rtp_over_quic.Pion.{FloatLib, Attributes, no_attributes, of_time}
use rtp_over_quic.Scream.Receiver.{RxLib}
use rtp_over_quic.Quic.Sender.{AckedPkt}

-- `rtp.RTCPFeedback`.
pub record RtcpFeedback : Type 0 where
  pub buffer : List ℕ
  pub attributes : Attributes

-- What the `select` of `run` finds: an acknowledged packet, with the time that is read for it and
-- the latest RTT in nanoseconds that `Metrics` returns; or the context is cancelled.
pub data Event : Type 0 where
  acked : AckedPkt → ℕ → ℕ → Event
  cancelled : Event

-- A call of `Receive`: the time in NTP units, the SSRC, the size and the sequence number.
pub record Receive : Type 0 where
  pub time : ℕ
  pub ssrc : ℕ
  pub size : ℕ
  pub seq_nr : ℕ

module _ (f : FloatLib) where
  -- `float64(secs) + float64(usecs)*1e-6`, of a time in nanoseconds after 1970.
  unfoldable float_seconds : ℕ → f.Float
  float_seconds nanos =
      let secs = nanos / 1_000_000_000 in
      let usecs = nanos / 1000 - secs * 1_000_000 in
      f.add (f.of_nat secs) (f.mul (f.of_nat usecs) (f.div (f.of_nat 1) (f.of_nat 1_000_000)))

  -- `getNTPT0`, for the time of the call.
  unfoldable get_ntp_t0 : ℕ → f.Float
  unfolding float_seconds
  get_ntp_t0 now = f.sub (float_seconds now) (f.div (f.of_nat 1) (f.of_nat 1000))

  -- `& 0xFFFFFFFF` keeps the low 32 bits.
  unfoldable get_time_between_ntp : f.Float → ℕ → ℕ
  unfolding float_seconds
  get_time_between_ntp t0 tx =
      let tt = f.sub (float_seconds tx) t0 in f.to_uint64 (f.mul tt (f.of_nat 65536)) % 2 ^ 32

  -- `uint64(rttNTP)`, where `Duration.Seconds` adds the whole seconds and the rest.
  unfoldable rtt_ntp : ℕ → ℕ
  rtt_ntp rtt = f.to_uint64 (
      f.mul
        (f.add (f.of_nat (rtt / 1_000_000_000))
          (f.div (f.of_nat (rtt % 1_000_000_000)) (f.of_nat 1_000_000_000)))
        (f.of_nat 65536))

  -- `lastTS`: half a round trip after the packet was sent.
  unfoldable last_ts : f.Float → AckedPkt → ℕ → ℕ
  unfolding get_time_between_ntp rtt_ntp
  last_ts t0 pkt rtt = (get_time_between_ntp t0 pkt.sent_ts + rtt_ntp rtt / 2) % 2 ^ 64

abbrev pub report : ℕ → Option (List ℕ) → List RtcpFeedback
report now none = []
report now (some fb) =
    record { buffer = fb; attributes = record no_attributes { timestamp = some (of_time now) } }
    ∷ []

module _ (f : FloatLib) (x : RxLib) where
  -- One round of `run` for a packet: scream-go's receiver, the call of `Receive`, and the reports
  -- for the callback.
  unfoldable pub step : f.Float → x.Rx → AckedPkt → ℕ → ℕ → x.Rx × Receive × List RtcpFeedback
  unfolding last_ts
  step t0 rx pkt now rtt =
      let time = last_ts f t0 pkt rtt in
      let received = x.receive rx time pkt.ssrc pkt.size pkt.seq_nr in
      let (rx', feedback) = x.create_standardized_feedback received time true in
      (
        rx',
        record { time = time; ssrc = pkt.ssrc; size = pkt.size; seq_nr = pkt.seq_nr },
        report now feedback,
      )

  unfoldable pub run : f.Float → x.Rx → List Event → List Receive × List RtcpFeedback
  unfolding step
  run t0 rx [] = ([], [])
  run t0 rx (cancelled ∷ es) = ([], [])
  run t0 rx (acked pkt now rtt ∷ es) =
      let (rx', received, reports) = step t0 rx pkt now rtt in
      let (receives, later) = run t0 rx' es in (received ∷ receives, reports ++ later)
