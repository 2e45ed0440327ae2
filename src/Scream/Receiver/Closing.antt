-- ===== src/Scream/Receiver/Closing.antt =====
-- scream/receiver_interceptor.go: `BindRTCPWriter`, `Close` and the reader of `BindRemoteStream`,
-- with the goroutines that meet them at the unbuffered channel `receive` and the wait group.
--
-- The mutexes are left out: a goroutine holds one for calls that return, and waits for nothing
-- meanwhile. The inner readers and the RTCP writer return.
use rtp_over_quic.Base.{◌≡◌, refl, Bool, true, false, ◌⊎◌, inl, inr, arith}
use rtp_over_quic.Base.Runs.{Steps, here, later, append, Steps-keeps}

-- `loop`: not started; at its first `select`; at that of its loop; returned.
pub data LoopPlace : Type 0 where
  unbound starting looping returned : LoopPlace

-- `loopFeedbackSender`: not started; at its `select`; returned.
pub data TickerPlace : Type 0 where
  unborn ticking returned : TickerPlace

-- A reader, which the transport calls for a packet: before a call, or at `r.receive <-`.
pub data ReaderPlace : Type 0 where
  idle sending : ReaderPlace

-- `closed`: the channel `close` is closed, and `Close` waits for the goroutines.
pub record System : Type 0 where
  pub loop : LoopPlace
  pub ticker : TickerPlace
  pub reader : ReaderPlace
  pub closed : Bool

-- `NewInterceptor`.
abbrev pub initial : System
initial = record { loop = unbound; ticker = unborn; reader = idle; closed = false }

pub data Step (s : System) : System → Type 0 where
  -- `BindRTCPWriter`, which is called once, and starts nothing where `isClosed` holds.
  binds_writer : s.loop ≡ unbound → s.closed ≡ false → Step s (record s { loop = starting })
  reads : s.reader ≡ idle → Step s (record s { reader = sending })
  meets_first :
      s.reader ≡ sending
      → s.loop ≡ starting
      → Step s (record s { reader = idle; loop = looping; ticker = ticking })
  meets : s.reader ≡ sending → s.loop ≡ looping → Step s (record s { reader = idle })
  loop_returns :
      (s.loop ≡ starting) ⊎ (s.loop ≡ looping)
      → s.closed ≡ true
      → Step s (record s { loop = LoopPlace.returned })
  ticker_returns :
      s.ticker ≡ ticking → s.closed ≡ true → Step s (record s { ticker = TickerPlace.returned })
  -- `Close`, up to its wait.
  closes : Step s (record s { closed = true })

-- `r.wg.Wait()` returns: no goroutine that was counted is left.
pub record IsDone (s : System) : Type 0 where
  pub loop : (s.loop ≡ unbound) ⊎ (s.loop ≡ LoopPlace.returned)
  pub ticker : (s.ticker ≡ unborn) ⊎ (s.ticker ≡ TickerPlace.returned)

-- Nobody is left who would receive.
record IsDeaf (s : System) : Type 0 where
  pub is_closed : s.closed ≡ true
  pub loop : (s.loop ≡ unbound) ⊎ (s.loop ≡ LoopPlace.returned)
  pub waits : s.reader ≡ sending

Step-IsDeaf : (s t : System) → Step s t → IsDeaf s → IsDeaf t
Step-IsDeaf s t (binds_writer a b) d = ground arith
Step-IsDeaf s t (reads a) d = ground arith
Step-IsDeaf s t (meets_first a b) d = ground arith
Step-IsDeaf s t (meets a b) d = ground arith
Step-IsDeaf s t (loop_returns a b) d = ground arith
Step-IsDeaf s t (ticker_returns a b) d = ground arith
Step-IsDeaf s t closes d = ground arith

abbrev CanBeDone : System → Type 0
CanBeDone s = (t : System) × Steps Step s t × IsDone t

ticker-CanBeDone :
    (s : System)
    → s.closed ≡ true
    → (s.loop ≡ unbound) ⊎ (s.loop ≡ LoopPlace.returned)
    → CanBeDone s
ticker-CanBeDone s is_closed loop =
    elim s.ticker as (λ place. s.ticker ≡ place → CanBeDone s) [
      | unborn ↦ λ at. (s, here, record { loop = loop; ticker = inl at })
      | ticking ↦ λ at.
          (_, later here (ticker_returns at is_closed), record { loop = loop; ticker = inr refl })
      | TickerPlace.returned ↦ λ at. (s, here, record { loop = loop; ticker = inr at })
    ]
      refl

leaving-CanBeDone :
    (s : System) → s.closed ≡ true → (s.loop ≡ starting) ⊎ (s.loop ≡ looping) → CanBeDone s
leaving-CanBeDone s is_closed loop =
    let (t, more, done) =
      ticker-CanBeDone (record s { loop = LoopPlace.returned }) is_closed (inr refl) in
    (t, append (later here (loop_returns loop is_closed)) more, done)

closed-CanBeDone : (s : System) → s.closed ≡ true → CanBeDone s
closed-CanBeDone s is_closed =
    elim s.loop as (λ place. s.loop ≡ place → CanBeDone s) [
      | unbound ↦ λ at. ticker-CanBeDone s is_closed (inl at)
      | starting ↦ λ at. leaving-CanBeDone s is_closed (inl at)
      | looping ↦ λ at. leaving-CanBeDone s is_closed (inr at)
      | LoopPlace.returned ↦ λ at. ticker-CanBeDone s is_closed (inr at)
    ]
      refl

-- Whatever happens next, the reader does not return.
abbrev pub StaysSending : System → Type 0
StaysSending t = (u : System) → Steps Step t u → u.reader ≡ sending

-- Where the interceptor is closed, its goroutines can still return, so that the wait of `Close`
-- ends; and once they have, a packet that is read is never handed over: the goroutine of the
-- transport that reads it waits in the reader for ever.
pub closed-IsDone :
    (s : System)
    → s.closed ≡ true
    → ((t : System) × Steps Step s t × IsDone t) × (IsDone s → s.reader ≡ sending → StaysSending s)
closed-IsDone s is_closed = (
  closed-CanBeDone s is_closed,
  λ done waits u steps.
      (Steps-keeps IsDeaf Step-IsDeaf steps
        (record { is_closed = is_closed; loop = done.loop; waits = waits })).waits,
)
