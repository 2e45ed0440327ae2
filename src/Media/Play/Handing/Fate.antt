-- ===== src/Media/Play/Handing/Fate.antt =====
-- Whether a buffer of the pipeline gets to `Play`.
use rtp_over_quic.Base.{◌≡◌, ◌≢◌, refl, true, false, ◌⊎◌, arith}
use rtp_over_quic.Base.Runs.{Steps, here, later, Steps-keeps}
use rtp_over_quic.Media.Play.Handing.{
  free, handing, selecting, writing, returned, System, initial, Step, calls, hands, hands_closed,
  writes, fails, leaves_stopped, leaves_ended, ends, ends_again, stops, stops_again, pipeline_fails,
  key_frame_fails, runs, send_panics, end_panics, stop_panics,
}

-- A send on the closed channel, and a second `close` of it, come after the end of the stream, and a
-- second `close` of `s.close` after `Stop`.
abbrev pub IsExcused : System → Type 0
IsExcused s =
    (s.health ≡ send_panics → s.ended ≡ true)
    × (s.health ≡ end_panics → s.ended ≡ true)
    × (s.health ≡ stop_panics → s.stopped ≡ true)

Step-IsExcused : (s t : System) → Step s t → IsExcused s → IsExcused t
Step-IsExcused s t (calls a b) v = ground arith
Step-IsExcused s t (hands a b c d) v = ground arith
Step-IsExcused s t (hands_closed a b c) v = ground arith
Step-IsExcused s t (writes a b) v = ground arith
Step-IsExcused s t (fails a b) v = ground arith
Step-IsExcused s t (leaves_stopped a b c) v = ground arith
Step-IsExcused s t (leaves_ended a b c) v = ground arith
Step-IsExcused s t (ends a b) v = ground arith
Step-IsExcused s t (ends_again a b) v = ground arith
Step-IsExcused s t (stops a b) v = ground arith
Step-IsExcused s t (stops_again a b) v = ground arith
Step-IsExcused s t (pipeline_fails a) v = ground arith
Step-IsExcused s t (key_frame_fails a b) v = ground arith

-- The handler waits, and nobody receives from the channel any more.
record IsStuck (s : System) : Type 0 where
  pub waits : s.handler ≡ handing
  pub shut : (s.play ≡ returned) ⊎ (s.ended ≡ true)

Step-IsStuck : (s t : System) → Step s t → IsStuck s → IsStuck t
Step-IsStuck s t (calls a b) v = ground arith
Step-IsStuck s t (hands a b c d) v = ground arith
Step-IsStuck s t (hands_closed a b c) v = ground arith
Step-IsStuck s t (writes a b) v = ground arith
Step-IsStuck s t (fails a b) v = ground arith
Step-IsStuck s t (leaves_stopped a b c) v = ground arith
Step-IsStuck s t (leaves_ended a b c) v = ground arith
Step-IsStuck s t (ends a b) v = ground arith
Step-IsStuck s t (ends_again a b) v = ground arith
Step-IsStuck s t (stops a b) v = ground arith
Step-IsStuck s t (stops_again a b) v = ground arith
Step-IsStuck s t (pipeline_fails a) v = ground arith
Step-IsStuck s t (key_frame_fails a b) v = ground arith

abbrev pub HandsOver : System → Type 0
HandsOver s = (t : System) × Steps Step s t × (t.handler ≡ free)

abbrev pub StaysHanding : System → Type 0
StaysHanding s = (t : System) → Steps Step s t → t.handler ≡ handing

abbrev pub Returns : System → Type 0
Returns s = (t : System) × Steps Step s t × (t.play ≡ returned)

going-HandsOver :
    (s : System)
    → s.health ≡ runs
    → s.handler ≡ handing
    → s.play ≢ returned
    → s.ended ≡ false
    → HandsOver s
going-HandsOver s alive waits on unended =
    elim s.play as (λ place. s.play ≡ place → HandsOver s) [
      | selecting ↦ λ at. (_, later here (hands alive waits at unended), refl)
      | writing ↦
          λ at. (_, later (later here (writes alive at)) (hands alive waits refl unended), refl)
      | returned ↦ λ at. absurd (on at)
    ]
      refl

stopped-Returns : (s : System) → s.health ≡ runs → s.stopped ≡ true → Returns s
stopped-Returns s alive stopped =
    elim s.play as (λ place. s.play ≡ place → Returns s) [
      | selecting ↦ λ at. (_, later here (leaves_stopped alive at stopped), refl)
      | writing ↦
          λ at. (_, later (later here (writes alive at)) (leaves_stopped alive refl stopped), refl)
      | returned ↦ λ at. (s, here, at)
    ]
      refl

-- In every state that is reached: if a send or a second closing of `bufferCh` has panicked, then
-- the stream had ended, and if a second `Stop` has, then `Stop` had been called; while nothing has
-- panicked, `Play` can return after `Stop`, and a handler that waits with a buffer can hand it
-- over as long as `Play` has not returned and the stream has not ended; once one of these has
-- happened, a handler that waits never hands its buffer over.
pub Steps-HandsOver :
    (s : System)
    → Steps Step initial s
    → IsExcused s
      × (s.health ≡ runs → s.stopped ≡ true → Returns s)
      × (s.health ≡ runs → s.handler ≡ handing → s.play ≢ returned → s.ended ≡ false → HandsOver s)
      × (s.handler ≡ handing → (s.play ≡ returned) ⊎ (s.ended ≡ true) → StaysHanding s)
Steps-HandsOver s steps = (
  Steps-keeps IsExcused Step-IsExcused steps ((λ e. cc e), (λ e. cc e), (λ e. cc e)),
  stopped-Returns s,
  going-HandsOver s,
  λ waits shut t more.
      (Steps-keeps IsStuck Step-IsStuck more (record { waits = waits; shut = shut })).waits,
)
