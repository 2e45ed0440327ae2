-- ===== src/Cmd/Execute.antt =====
-- cmd/root.go, `Execute`, and the `Run` functions of cmd/send.go and cmd/receive.go: how the
-- program ends, and which profiles it has written by then. The `main` of main.go does nothing else.
pub mod Receive
pub mod Endless
use rtp_over_quic.Base.{
  ◌≡◌, refl, Bool, true, false, List, [], ◌∷◌, String, Outcome, ok, err, panic, if◌then◌else◌,
}
use rtp_over_quic.Cmd.Profiling.{
  System, Written, CanCreate, setup_profiling, run_done, files, write_all, last_key,
  setup_profiling-last_key,
}

-- How the program stands: it runs; `main` has returned; `log.Fatal` has ended the process, where no
-- deferred call is made; a panic of the main goroutine has, behind its deferred calls; or a panic
-- of another goroutine has, where none of the main goroutine's is made.
pub data Ending : Type 0 where
  running exits fatal crashes killed : Ending

-- `start` of a command, on the main goroutine: it goes on, it returns or panics, or another
-- goroutine panics meanwhile.
pub data Start : Type 0 where
  goes_on dies : Start
  returns : Outcome (Unit {0}) → Start

-- What cobra does with the arguments: it returns an error, it prints its help, or it calls the
-- `Run` of a command.
pub data Command : Type 0 where
  refused helped : Command
  runs : Start → Command

-- `Run` of both commands: `log.Fatal` on the error of `start`.
unfoldable pub run : Start → Ending
run goes_on = running
run dies = killed
run (returns (ok done)) = exits
run (returns (err e)) = fatal
run (returns panic) = crashes

-- `rootCmd.Execute()`, and `log.Fatal` on its error.
unfoldable pub execute_root : Command → Ending
unfolding run
execute_root refused = fatal
execute_root helped = exits
execute_root (runs s) = run s

-- `defer`: the profiles are written where the function returns, and where it panics.
unfoldable pub deferred : List Written → Ending → Ending × List Written
deferred profiles exits = (exits, profiles)
deferred profiles running = (running, [])
deferred profiles fatal = (fatal, [])
deferred profiles crashes = (crashes, profiles)
deferred profiles killed = (killed, [])

-- `Execute`, for the flag of the CPU profile, and the map of the others in the order in which the
-- runtime visits it. The writing of a profile does not fail.
unfoldable pub execute : System → String → List (String × String) → Command → Ending × List Written
unfolding deferred execute_root
execute s cpu entries command =
    let (k, fns, good) = setup_profiling s cpu entries in
    if good then deferred (run_done k fns) (execute_root command) else (fatal, [])

abbrev profiles_at : Ending → List (String × String) → List Written
profiles_at exits entries = write_all (last_key entries "") (files entries)
profiles_at crashes entries = write_all (last_key entries "") (files entries)
profiles_at _ entries = []

deferred_lem :
    (written : List Written) (entries : List (String × String)) (e : Ending)
    → written ≡ write_all (last_key entries "") (files entries)
    → deferred written e ≡ (e, profiles_at e entries)
unfolding deferred
deferred_lem written entries running all = refl
deferred_lem written entries exits all = λ i. (exits, all i)
deferred_lem written entries fatal all = refl
deferred_lem written entries crashes all = λ i. (crashes, all i)
deferred_lem written entries killed all = refl

pub execute-profiles_at :
    (s : System) (entries : List (String × String)) (command : Command)
    → CanCreate s (files entries)
    → execute s "" entries command
      ≡ (execute_root command, profiles_at (execute_root command) entries)
unfolding execute
execute-profiles_at s entries command fine =
    let (good, all) = setup_profiling-last_key s entries fine in
    rw good (deferred_lem _ entries (execute_root command) all)
