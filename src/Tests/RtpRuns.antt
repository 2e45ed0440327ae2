-- ===== src/Tests/RtpRuns.antt =====
-- The unwrapper and the bandwidth estimator at concrete inputs.
use rtp_over_quic.Base.{
  List, [], ◌∷◌, true, none, some, ◌++◌, ℕ, ◌+◌, ◌%◌, ◌<◌, ◌≤◌, ◌≡◌, map, arith, refl, false, ok,
  err,
}
use rtp_over_quic.Base.Runs.{here, later}
use rtp_over_quic.Base.Int.{negsuc, pos}
use rtp_over_quic.Rtp.Estimator.{
  Event, ticks, new_estimator, cancelled, waiting, returned, run_scream, targets, logged,
  run_scream-targets,
}
use rtp_over_quic.Rtp.Startup.{
  System, handing_over, returned as stopped, Outlook, builder_calls, runner_fails, Steps-Outlook,
}
use rtp_over_quic.Rtp.Format.{Packet, RtpLine, TwccLib, log_all}
use rtp_over_quic.Rtp.Format.Columns.{indices, log_all-index}
use rtp_over_quic.Rtp.Unwrapper.{unwrap, new_unwrapper}
use rtp_over_quic.Rtp.Unwrapper.Tracking.{at, unwrap-mod}

-- A packet of the log, without header extensions.
abbrev logged_packet : ℕ → Packet
logged_packet seq = record {
  payload_type = 96;
  ssrc = 7;
  sequence_number = seq;
  timestamp = 0;
  marker = false;
  marshal_size = 12;
  extensions = [];
}

abbrev no_twcc : TwccLib
no_twcc bytes = err "short"

-- A late packet, and one beyond the wrap-around.
log_all-index_example :
    (lines : List RtpLine) × (log_all no_twcc new_unwrapper
        ((1, logged_packet 65534) ∷ (2, logged_packet 65533) ∷ (3, logged_packet 1) ∷ [])
      ≡ ok lines)
    × (indices lines ≡ map pos (65534 ∷ 65533 ∷ 65537 ∷ []))
    × (map (λ line. line.sequence_number) lines ≡ 65534 ∷ 65533 ∷ 1 ∷ [])
log_all-index_example =
    log_all-index no_twcc
      ((1, logged_packet 65534) ∷ (2, logged_packet 65533) ∷ (3, logged_packet 1) ∷ []) 65534
      (65533 ∷ 65537 ∷ []) (tt, (tt, (tt, tt))) refl (omega arith)
      (omega arith, (omega arith, omega arith), (omega arith, (omega arith, omega arith), tt))

unwrap-mod_example :
    (m : ℕ) × (unwrap (at 65535) 3 ≡ (at m, pos m))
    × (m % 65536 ≡ 3)
    × (m < 131071)
    × (65535 ≤ m + 32768)
unwrap-mod_example = unwrap-mod 65535 3 (omega arith) (omega arith)

abbrev ticks_and_estimators : List Event
ticks_and_estimators =
    ticks 100 (some (pos 5000)) ("0.1" ∷ [])
    ∷ ticks 200 (some (negsuc 0)) []
    ∷ new_estimator
    ∷ ticks 300 none []
    ∷ ticks 400 (some (pos 7000)) []
    ∷ []

run_scream-targets_example :
    let (acts, place) =
      run_scream waiting true
        (ticks 0 (some (pos 9)) [] ∷ new_estimator ∷ ticks_and_estimators ++ cancelled ∷ []) in
    (targets acts ≡ 5000 ∷ 7000 ∷ [])
    × (logged acts ≡ pos 5000 ∷ pos 7000 ∷ [])
    × (place ≡ returned)
run_scream-targets_example =
    run_scream-targets (ticks 0 (some (pos 9)) [] ∷ []) ticks_and_estimators [] (tt, tt)
      (tt, (tt, (tt, (tt, (tt, tt)))))

-- The building waits at the channel, and the log file cannot be made.
abbrev without_log : System
without_log = record { builder = handing_over; runner = stopped; cancelled = false }

Steps-Outlook_example : Outlook (some "denied") without_log
Steps-Outlook_example =
    Steps-Outlook (some "denied") without_log
      (later (later here (builder_calls refl)) (runner_fails "denied" refl refl)) refl
