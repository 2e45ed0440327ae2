-- ===== src/Rtp/Startup.antt =====
-- rtp/bandwidth_estimator.go, `RunSCReAM` and `OnNewSCReAMEstimator`, when a sender starts: the
-- goroutine of the estimator, and the building of the interceptors, which hands SCReAM's
-- interceptor over on the unbuffered channel `screamBWE`.
use rtp_over_quic.Base.{
  ◌≡◌, ◌≢◌, refl, Bool, true, false, String, Option, none, some, ◌⊎◌, inl, inr, arith,
}
use rtp_over_quic.Base.Runs.{Steps, here, later, first, Steps-keeps}

-- `Build`: before the callback of scream/sender_interceptor.go's `NewInterceptor`, at `e.screamBWE
-- <- bwe`, or past it.
pub data BuilderPlace : Type 0 where
  creating handing_over built : BuilderPlace

-- `RunSCReAM`: before `GetLogFile`, at the first `select`, in the loop, or returned.
pub data RunnerPlace : Type 0 where
  opening waiting looping returned : RunnerPlace

pub record System : Type 0 where
  pub builder : BuilderPlace
  pub runner : RunnerPlace
  pub cancelled : Bool

abbrev pub initial : System
initial = record { builder = creating; runner = opening; cancelled = false }

-- For the error of `GetLogFile`, if it returns one.
pub data Step (error : Option String) (s : System) : System → Type 0 where
  builder_calls : s.builder ≡ creating → Step error s (record s { builder = handing_over })
  runner_opens : s.runner ≡ opening → error ≡ none → Step error s (record s { runner = waiting })
  runner_fails :
      (e : String)
      → s.runner ≡ opening
      → error ≡ some e
      → Step error s (record s { runner = returned })
  they_meet :
      s.builder ≡ handing_over
      → (s.runner ≡ waiting) ⊎ (s.runner ≡ looping)
      → Step error s (record s { builder = built; runner = looping })
  runner_returns :
      (s.runner ≡ waiting) ⊎ (s.runner ≡ looping)
      → s.cancelled ≡ true
      → Step error s (record s { runner = returned })
  cancels : Step error s (record s { cancelled = true })

-- Until the context is cancelled, a goroutine that has its log file does not return.
abbrev Runs : System → Type 0
Runs s = (s.cancelled ≡ true) ⊎ (s.runner ≢ returned)

Step-Runs : {s t : System} → Step none s t → Runs s → Runs t
Step-Runs (builder_calls a) runs = ground arith
Step-Runs (runner_opens a b) runs = ground arith
Step-Runs (runner_fails e a b) runs = cc b
Step-Runs (they_meet a b) runs = ground arith
Step-Runs (runner_returns a b) runs = inl b
Step-Runs cancels runs = inl refl

Steps-Runs : {s : System} → Steps (Step none) initial s → Runs s
Steps-Runs steps = Steps-keeps Runs (λ s t. Step-Runs) steps (inr (λ e. cc e))

-- Without a log file, the goroutine never comes to the channel, and the building never ends.
pub record IsStuck (s : System) : Type 0 where
  pub unbuilt : s.builder ≢ built
  pub not_waiting : s.runner ≢ waiting
  pub not_looping : s.runner ≢ looping

Step-IsStuck : {e : String} {s t : System} → Step (some e) s t → IsStuck s → IsStuck t
Step-IsStuck (builder_calls a) i = ground arith
Step-IsStuck (runner_opens a b) i = cc b
Step-IsStuck (runner_fails e a b) i = ground arith
Step-IsStuck (they_meet a (inl b)) i = absurd (i.not_waiting b)
Step-IsStuck (they_meet a (inr b)) i = absurd (i.not_looping b)
Step-IsStuck (runner_returns a b) i = ground arith
Step-IsStuck cancels i = ground arith

Steps-IsStuck : {e : String} {s t : System} → Steps (Step (some e)) s t → IsStuck s → IsStuck t
Steps-IsStuck steps i = Steps-keeps IsStuck (λ s t. Step-IsStuck) steps i

-- What can still become of the building: with a log file it can end; without, it never does.
abbrev pub Outlook : Option String → System → Type 0
Outlook none s = (t : System) × Steps (Step none) s t × (t.builder ≡ built)
Outlook (some e) s = (t : System) → Steps (Step (some e)) s t → IsStuck t

-- From the channel on.
handing_over-Outlook :
    (s : System) → s.builder ≡ handing_over → s.runner ≢ returned → Outlook none s
handing_over-Outlook s b runs =
    elim s.runner as (λ r. s.runner ≡ r → Outlook none s) [
      | opening ↦ λ r. (_, later (later here (runner_opens r refl)) (they_meet b (inl refl)), refl)
      | waiting ↦ λ r. (_, later here (they_meet b (inl r)), refl)
      | looping ↦ λ r. (_, later here (they_meet b (inr r)), refl)
      | returned ↦ λ r. absurd (runs r)
    ]
      refl

running-Outlook : (s : System) → s.runner ≢ returned → Outlook none s
running-Outlook s runs =
    elim s.builder as (λ b. s.builder ≡ b → Outlook none s) [
      | creating ↦ λ b.
          let (t, steps, done) =
            handing_over-Outlook (record s { builder = handing_over }) refl runs in
          (t, first (builder_calls b) steps, done)
      | handing_over ↦ λ b. handing_over-Outlook s b runs
      | built ↦ λ b. (s, here, b)
    ]
      refl

-- In every state that is reached while the context is not cancelled: if the log file of the
-- estimator can be made, the building of the interceptors can still end; if not, then whatever
-- happens next, the cancelling of the context included, it waits at the channel for ever.
pub Steps-Outlook :
    (error : Option String) (s : System)
    → Steps (Step error) initial s
    → s.cancelled ≡ false
    → Outlook error s
Steps-Outlook none s steps going = elim (Steps-Runs steps) [
  | inl cancelled ↦ absurd (ground arith)
  | inr runs ↦ running-Outlook s runs
]
Steps-Outlook (some e) s steps going = λ t more. Steps-IsStuck more (
    Steps-IsStuck steps
      (record { unbuilt = λ e. cc e; not_waiting = λ e. cc e; not_looping = λ e. cc e }))
