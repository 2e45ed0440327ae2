-- ===== src/Scream/Pacing.antt =====
-- scream/sender_interceptor.go, `loopPacingTimer`: the goroutine that sends the packets of one
-- stream. It is a machine that takes one event at a time, so that other goroutines may enqueue a
-- packet between any two rounds of the inner loop.
pub mod Order
pub mod Gate
pub mod Rounds
use rtp_over_quic.Base.{
  ℕ, ◌+◌, Bool, true, false, List, [], ◌∷◌, ◌++◌, map, Option, none, some, if◌then◌else◌, ltb,
}
use rtp_over_quic.Pion.{RtpLib, FloatLib}
use rtp_over_quic.Scream.Queue.{Packet, Queue, size_of, size_of_queue, enqueue, dequeue, clear}
use rtp_over_quic.Scream.Queue.Contents.{packets}
use rtp_over_quic.Scream.Ntp.{get_time_ntp}
use rtp_over_quic.Scream.Tx.{TxLib}

-- Where the goroutine stands: at the `select`, at the head of the inner loop, or past `return`.
pub data Place : Type 0 where
  selecting pacing returned : Place

-- What happens next: a case of the `select` is chosen, a round of the inner loop runs, or another
-- goroutine enqueues a packet.
pub data Event (r : RtpLib) (f : FloatLib) : Type 0 where
  new_feedback new_frame timer_fires closes : Event r f
  -- The two readings of the clock in the round.
  round : ℕ → ℕ → Event r f
  enqueues : Packet r → f.Float → Event r f

-- What becomes of a packet that leaves the queue: it is written, or the congestion control clears
-- it away.
pub data Fate : Type 0 where
  written cleared : Fate

-- A packet that leaves the queue, with its fate.
abbrev pub Fated : RtpLib → Type 0
Fated r = Fate × Packet r

pub record Loop {r : RtpLib} {f : FloatLib} (lib : TxLib r f) : Type 0 where
  pub place : Place
  pub timer_set : Bool
  pub queue : Queue r f
  pub tx : lib.Tx

-- The constants of the tests, `-1` and `1e-3`.
abbrev pub minus_one : (f : FloatLib) → f.Float
minus_one f = f.negate (f.of_nat 1)

abbrev pub milli : (f : FloatLib) → f.Float
milli f = f.div (f.of_nat 1) (f.of_nat 1000)

-- The queue after a call of the congestion control, and what left it.
abbrev pub clear_if : {r : RtpLib} {f : FloatLib} → Bool → Queue r f → Queue r f × List (Fated r)
clear_if true q = ((clear q).0, map (λ p. (cleared, p)) (packets q))
clear_if false q = (q, [])

module _ {r : RtpLib} {f : FloatLib} (lib : TxLib r f) (ssrc : ℕ) where
  -- `if transmit > 1e-3`: set the timer and leave the inner loop; otherwise go round again.
  unfoldable pub wait_if : f.Float → Loop lib → Loop lib
  wait_if transmit l =
      if f.is_lt (milli f) transmit then record l { place = selecting; timer_set = true } else l

  -- `writer.Write`, whose error is only logged, and `AddTransmitted`.
  unfoldable pub transmitted : ℕ → f.Float → Loop lib → Packet r → Loop lib × List (Fated r)
  transmitted now transmit l p =
      let h = p.header in
      let (tx, clears) =
        lib.add_transmitted l.tx (get_time_ntp f now) ssrc (size_of p) (r.sequence_number h)
          (r.marker h) l.queue in
      let (q, out) = clear_if clears l.queue in
      (wait_if transmit (record l { queue = q; tx = tx }), (written, p) ∷ out)

  -- `packet := stream.queue.Dequeue()`, and what follows it; nil leaves the inner loop.
  unfoldable pub send :
      ℕ → f.Float → Loop lib → Queue r f × Option (Packet r) → Loop lib × List (Fated r)
  unfolding transmitted
  send now transmit l (q, none) = (record l { place = selecting; queue = q }, [])
  send now transmit l (q, some p) = transmitted now transmit (record l { queue = q }) p

  -- What follows `IsOkToTransmit` in a round of the inner loop.
  unfoldable pub decided : ℕ → f.Float → Loop lib → Loop lib × List (Fated r)
  unfolding send
  decided later transmit l =
      if f.is_eq transmit (minus_one f)
      then (record l { place = selecting }, [])
      else (if f.is_le transmit (milli f)
          then send later transmit l (dequeue l.queue)
          else (wait_if transmit l, []))

  -- One round of the inner loop.
  unfoldable pub pace : ℕ → ℕ → Loop lib → Loop lib × List (Fated r)
  unfolding decided
  pace now later l =
      let (tx, clears, transmit) = lib.is_ok_to_transmit l.tx (get_time_ntp f now) ssrc l.queue in
      let (q, out) = clear_if clears l.queue in
      let (l', more) = decided later transmit (record l { queue = q; tx = tx }) in (l', out ++ more)

  -- Past the `select`: `if stream.queue.SizeOfQueue() <= 0 { continue }`.
  unfoldable pub wake : Loop lib → Loop lib
  wake l = if ltb 0 (size_of_queue l.queue) then record l { place = pacing } else l

  -- One event. A case of the `select`, or a round, happens only at its place.
  abbrev pub at_place : Place → Event r f → Loop lib → Loop lib × List (Fated r)
  at_place selecting new_feedback l = (if l.timer_set then l else wake l, [])
  at_place selecting new_frame l = (if l.timer_set then l else wake l, [])
  at_place selecting timer_fires l = (wake (record l { timer_set = false }), [])
  at_place selecting closes l = (record l { place = returned }, [])
  at_place pacing (round now later) l = pace now later l
  at_place place (enqueues p ts) l = (record l { queue = enqueue p ts l.queue }, [])
  at_place _ _ l = (l, [])

  unfoldable pub step : Loop lib → Event r f → Loop lib × List (Fated r)
  unfolding pace
  step l e = at_place l.place e l

  unfoldable pub run : Loop lib → List (Event r f) → Loop lib × List (Fated r)
  run l [] = (l, [])
  run l (e ∷ es) = let (l', out) = step l e in let (l'', outs) = run l' es in (l'', out ++ outs)
