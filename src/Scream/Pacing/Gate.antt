-- ===== src/Scream/Pacing/Gate.antt =====
-- When the pacing loop may write.
use rtp_over_quic.Base.{ℕ, ◌≡◌, refl, true, List, [], ◌∷◌, arith, ◌⊎◌, inl, inr, All}
use rtp_over_quic.Pion.{RtpLib, FloatLib}
use rtp_over_quic.Scream.Tx.{TxLib}
use rtp_over_quic.Scream.Pacing.{Event, timer_fires, round, Loop, selecting, returned, step, run}

-- Nothing but the timer's own case.
abbrev IsNotTimer : {r : RtpLib} {f : FloatLib} → Event r f → Type 0
IsNotTimer timer_fires = ⊥
IsNotTimer _ = Unit {0}

-- Waiting for the timer, or gone.
abbrev pub IsHeld : {r : RtpLib} {f : FloatLib} {lib : TxLib r f} → Loop lib → Type 0
IsHeld l = ((l.place ≡ selecting) × (l.timer_set ≡ true)) ⊎ (l.place ≡ returned)

module _ {r : RtpLib} {f : FloatLib} (lib : TxLib r f) (ssrc : ℕ) where
  step-IsHeld :
      (l : Loop lib) (e : Event r f)
      → IsNotTimer e
      → IsHeld l
      → ((step lib ssrc l e).1 ≡ []) × IsHeld (step lib ssrc l e).0
  unfolding step
  step-IsHeld l (round now later) quiet (inl (place, set)) = rw place (refl, inl (refl, set))
  step-IsHeld l (round now later) quiet (inr place) = rw place (refl, inr refl)
  step-IsHeld l timer_fires quiet held = absurd quiet
  step-IsHeld l _ quiet (inl (place, set)) = ground arith
  step-IsHeld l _ quiet (inr place) = ground arith

  -- A loop that waits for its timer, or that has returned, neither writes a packet nor has one
  -- cleared as long as the case of the timer is not chosen, whatever frames and feedback come in,
  -- whatever is enqueued, and also if the interceptor is closed.
  pub run-IsHeld :
      (l : Loop lib) (es : List (Event r f))
      → All IsNotTimer es
      → IsHeld l
      → ((run lib ssrc l es).1 ≡ []) × IsHeld (run lib ssrc l es).0
  unfolding run
  run-IsHeld l [] quiet held = (refl, held)
  run-IsHeld l (e ∷ es) (q, quiet) held =
      let (silent, held') = step-IsHeld l e q held in
      let (silent', held'') = run-IsHeld (step lib ssrc l e).0 es quiet held' in
      (rw (silent, silent'), held'')
