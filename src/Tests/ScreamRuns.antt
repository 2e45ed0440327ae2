-- ===== src/Tests/ScreamRuns.antt =====
-- SCReAM's queue, pacing loop, reports and timestamps at concrete inputs.
use rtp_over_quic.Base.{ℕ, ◌≡◌, refl, true, false, List, [], ◌∷◌, ◌++◌, none, some, ok, arith, inl}
use rtp_over_quic.Base.Int.{pos}
use rtp_over_quic.Scream.Queue.{Packet, size_of_queue, new_queue, bytes_in_queue, enqueue, dequeue}
use rtp_over_quic.Scream.Queue.Contents as Contents
use rtp_over_quic.Scream.Pacing.{
  Event, enqueues, timer_fires, new_frame, new_feedback, round, Loop, pacing, selecting, run,
}
use rtp_over_quic.Scream.Pacing.Order.{gone, gone-run}
use rtp_over_quic.Scream.Pacing.Gate.{IsHeld, run-IsHeld}
use rtp_over_quic.Scream.Pacing.Rounds.{rounds, rounds-place}
use rtp_over_quic.Scream.Ssrcs.{ReportBlock, extract_ssrcs, extract_ssrcs_report}
use rtp_over_quic.Scream.Ssrcs.Safety.{Returns, extract_ssrcs-Returns}
use rtp_over_quic.Scream.Ssrcs.Layout.{extract_ssrcs-put_blocks}
use rtp_over_quic.Tests.Packages.{small_rtp, thousandths, always}

abbrev packet : ℕ → Packet small_rtp
packet k = record { header = k; payload = 0 ∷ []; timestamp = 0; attributes = none }

abbrev ops : List (Contents.Op small_rtp thousandths)
ops =
    Contents.Op.enqueues (packet 1) 10
    ∷ Contents.Op.enqueues (packet 2) 20
    ∷ Contents.Op.dequeues
    ∷ []

run-packets_example :
    Contents.packets (new_queue {r = small_rtp} {f = thousandths}) ++ packet 1 ∷ packet 2 ∷ []
    ≡ (Contents.run new_queue ops).1 ++ Contents.packets (Contents.run new_queue ops).0
run-packets_example = Contents.run-packets new_queue ops

bytes_in_queue-run_example : bytes_in_queue (Contents.run new_queue ops).0 ≡ pos 3
unfolding new_queue enqueue dequeue
bytes_in_queue-run_example = Contents.bytes_in_queue-run ops (omega arith)

abbrev sleeping : Loop always
sleeping = record { place = selecting; timer_set = true; queue = new_queue; tx = 0 }

abbrev events : List (Event small_rtp thousandths)
events = enqueues (packet 1) 10 ∷ new_frame ∷ timer_fires ∷ round 5 6 ∷ round 7 8 ∷ []

gone-run_example :
    Contents.packets (sleeping.queue) ++ packet 1 ∷ []
    ≡ gone (run always 7 sleeping events).1
      ++ Contents.packets (run always 7 sleeping events).0.queue
gone-run_example = gone-run always 7 sleeping events

abbrev quiet : List (Event small_rtp thousandths)
quiet = enqueues (packet 1) 10 ∷ new_feedback ∷ new_frame ∷ []

run-IsHeld_example : ((run always 7 sleeping quiet).1 ≡ []) × IsHeld (run always 7 sleeping quiet).0
run-IsHeld_example = run-IsHeld always 7 sleeping quiet (tt, (tt, (tt, tt))) (inl (refl, refl))

abbrev busy : Loop always
busy = record { place = pacing; timer_set = false; queue = enqueue (packet 1) 10 new_queue; tx = 0 }

rounds-place_example : (run always 7 busy (rounds ((5, 6) ∷ (7, 8) ∷ []))).0.place ≡ selecting
unfolding enqueue new_queue size_of_queue
rounds-place_example =
    rounds-place always 7 busy ((5, 6) ∷ (7, 8) ∷ []) (λ tx t ssrc q above. ground arith) refl
      (omega arith)

-- One report for SSRC 7, two for SSRC 9, and SSRC 7 once more.
abbrev blocks : List ReportBlock
blocks =
    record { media_ssrc = 7; begin_sequence = 1; metrics = (128, 0) ∷ [] }
    ∷ record { media_ssrc = 9; begin_sequence = 2; metrics = (128, 0) ∷ (0, 0) ∷ [] }
    ∷ record { media_ssrc = 7; begin_sequence = 3; metrics = [] }
    ∷ []

extract_ssrcs-put_blocks_example :
    extract_ssrcs (
      (0 ∷ 0 ∷ 0 ∷ 0 ∷ 0 ∷ 0 ∷ 0 ∷ 0 ∷ [])
      ++ ((0 ∷ 0 ∷ 0 ∷ 7 ∷ 0 ∷ 1 ∷ 0 ∷ 1 ∷ 128 ∷ 0 ∷ 0 ∷ 0 ∷ 0 ∷ 0 ∷ 0 ∷ 9 ∷ 0 ∷ 2 ∷ 0 ∷ 2 ∷ 128 ∷ 0
            ∷ 0 ∷ 0 ∷ 0 ∷ 0 ∷ 0 ∷ 7 ∷ 0 ∷ 3 ∷ 0 ∷ 0 ∷ [])
          ++ (1 ∷ 1 ∷ 1 ∷ 1 ∷ [])))
    ≡ some (ok (7 ∷ 9 ∷ []))
unfolding extract_ssrcs_report
extract_ssrcs-put_blocks_example =
    extract_ssrcs-put_blocks (0 ∷ 0 ∷ 0 ∷ 0 ∷ 0 ∷ 0 ∷ 0 ∷ 0 ∷ []) blocks (1 ∷ 1 ∷ 1 ∷ 1 ∷ []) refl
      refl
      ((omega arith, omega arith), ((omega arith, omega arith), ((omega arith, omega arith), tt)))

abbrev sixteen_bytes : List ℕ
sixteen_bytes = 0 ∷ 0 ∷ 0 ∷ 0 ∷ 0 ∷ 0 ∷ 0 ∷ 0 ∷ 1 ∷ 2 ∷ 3 ∷ 4 ∷ 255 ∷ 255 ∷ 255 ∷ 255 ∷ []

extract_ssrcs-Returns_example : Returns (extract_ssrcs sixteen_bytes)
extract_ssrcs-Returns_example = extract_ssrcs-Returns sixteen_bytes refl
