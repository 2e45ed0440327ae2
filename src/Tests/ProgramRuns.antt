-- ===== src/Tests/ProgramRuns.antt =====
-- The program's runs, and the goroutines that wait for each other, at concrete states.
use rtp_over_quic.Base.{◌≡◌, ◌≢◌, ◌⊎◌, refl, true, false, List, [], ◌∷◌, String, ok}
use rtp_over_quic.Media.Play.Handing as Handing
use rtp_over_quic.Media.Play.Handing.Fate.{
  IsExcused, HandsOver, StaysHanding, Returns, Steps-HandsOver,
}
use rtp_over_quic.Base.Runs.{Steps, here, later}
use rtp_over_quic.Udp.Server.{datagram, broken}
use rtp_over_quic.Cmd.Profiling.{System}
use rtp_over_quic.Cmd.Execute.{runs}
use rtp_over_quic.Cmd.Execute.Receive.{Network}
use rtp_over_quic.Quic.LocalFeedback.Waiting as Waiting
use rtp_over_quic.Quic.LocalFeedback.Waiting.Fate.{IsStopped, GetsIn, StaysAcking, Steps-GetsIn}
use rtp_over_quic.Scream.Receiver.Closing as Closing
use rtp_over_quic.Scream.Receiver.Closing.{IsDone, StaysSending, closed-IsDone}

abbrev can_create : System
can_create = record { create_fails = λ file. false; cpu_fails = false }

abbrev heap_profile : List (String × String)
heap_profile = ("heap", "h.out") ∷ []

-- One datagram, and an error of the socket.
abbrev broken_socket : Network
broken_socket = record {
  listens = ok tt;
  datagrams = datagram 1 (5 ∷ []) ∷ broken ∷ [];
  quic_connections = [];
  tcp_connections = [];
  panics = λ addr. false;
}

-- The context is cancelled, and the generator has returned.
abbrev left : Waiting.System
left = record Waiting.initial { generator = Waiting.GeneratorPlace.returned; cancelled = true }

left_steps : Steps Waiting.Step Waiting.initial left
left_steps = later (later here Waiting.cancels) (Waiting.generator_returns refl refl)

Steps-GetsIn_example :
    (left.cancelled ≡ false → left.acker ≡ Waiting.acking → GetsIn left)
    × (IsStopped left → (t : Waiting.System) × Steps Waiting.Step left t × StaysAcking t)
Steps-GetsIn_example = Steps-GetsIn left left_steps

-- A closed interceptor whose writer was never bound, and a packet that is read all the same.
abbrev shut : Closing.System
shut = record Closing.initial { reader = Closing.sending; closed = true }

closed-IsDone_example :
    ((t : Closing.System) × Steps Closing.Step shut t × IsDone t)
    × (IsDone shut → shut.reader ≡ Closing.sending → StaysSending shut)
closed-IsDone_example = closed-IsDone shut refl

-- A source that was stopped while the pipeline had a buffer to hand over: `Play` has returned.
abbrev left_play : Handing.System
left_play = record Handing.initial {
  handler = Handing.handing;
  play = Handing.returned;
  stopped = true;
}

left_play_steps : Steps Handing.Step Handing.initial left_play
left_play_steps =
    later (later (later here (Handing.stops refl refl)) (Handing.leaves_stopped refl refl refl))
      (Handing.calls refl refl)

Steps-HandsOver_example :
    IsExcused left_play
    × (left_play.health ≡ Handing.runs → left_play.stopped ≡ true → Returns left_play)
    × (left_play.health ≡ Handing.runs
        → left_play.handler ≡ Handing.handing
        → left_play.play ≢ Handing.returned
        → left_play.ended ≡ false
        → HandsOver left_play)
    × (left_play.handler ≡ Handing.handing
        → (left_play.play ≡ Handing.returned) ⊎ (left_play.ended ≡ true)
        → StaysHanding left_play)
Steps-HandsOver_example = Steps-HandsOver left_play left_play_steps
