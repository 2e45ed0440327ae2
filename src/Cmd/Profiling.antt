-- ===== src/Cmd/Profiling.antt =====
-- cmd/root.go, `setupProfiling`: which profile is written into which file when the program ends.
-- The module is built with Go 1.18, where the variables of a `for … range` loop are one for all
-- rounds: the closures that the loop makes share the variable `k`.
use mathlib.Core.List.{append_assoc, append-nil}
use rtp_over_quic.Base.{
  ◌≡◌, refl, ap, sym, ◌∙◌, Bool, true, false, List, [], ◌∷◌, ◌++◌, map, if◌then◌else◌, String,
  str_eq, inl, inr, All, Bool-cases,
}

-- The operating system: does `os.Create` fail for the file, and does `StartCPUProfile` fail?
pub record System : Type 0 where
  pub create_fails : String → Bool
  pub cpu_fails : Bool

-- A function of `doneFns`: stop the CPU profile, or look up the profile that `k` names when the
-- function is called, and write it into the file.
pub data Done : Type 0 where
  stop_cpu : Done
  write_lookup : String → Done

-- What ends up in a file: the file, and the name of the profile.
pub record Written : Type 0 where
  pub file : String
  pub profile : String

-- One round of the loop, for the key and value of the map.
abbrev pub round : System → String → List Done → List Done × Bool
round s v done_fns =
    if str_eq v ""
    then (done_fns, true)
    else (if s.create_fails v then (done_fns, false) else (done_fns ++ write_lookup v ∷ [], true))

-- The loop over the map, in the order in which the runtime happens to visit it. The state is the
-- shared variable `k` and the functions so far; the flag says whether the loop ran to its end.
unfoldable pub rounds :
    System → List (String × String) → String → List Done → String × List Done × Bool
rounds s [] k done_fns = (k, done_fns, true)
rounds s ((key, v) ∷ entries) k done_fns =
    let (done_fns', good) = round s v done_fns in
    let rest = rounds s entries key done_fns' in if good then rest else (key, done_fns', false)

-- The CPU profile, then the loop over the map. An error of the CPU profile ends the set-up.
unfoldable pub setup_profiling :
    System → String → List (String × String) → String × List Done × Bool
unfolding rounds
setup_profiling s cpu entries =
    if str_eq cpu ""
    then rounds s entries "" []
    else (if s.create_fails cpu
        then ("", [], false)
        else (if s.cpu_fails then ("", [], false) else rounds s entries "" (stop_cpu ∷ [])))

-- `concatDoneFns`, where no function fails: the profile is looked up under the `k` that the loop
-- has left.
unfoldable pub run_done : String → List Done → List Written
run_done k [] = []
run_done k (stop_cpu ∷ fns) = run_done k fns
run_done k (write_lookup file ∷ fns) = record { file = file; profile = k } ∷ run_done k fns

-- The last key that the loop visits.
abbrev pub last_key : List (String × String) → String → String
last_key [] k = k
last_key ((key, v) ∷ entries) k = last_key entries key

-- The files that were asked for.
abbrev pub files : List (String × String) → List String
files [] = []
files ((key, v) ∷ entries) = if str_eq v "" then files entries else v ∷ files entries

abbrev pub write_all : String → List String → List Written
write_all k = map λ file. record { file = file; profile = k }

run_done-append :
    (k : String) (fns more : List Done)
    → run_done k (fns ++ more) ≡ run_done k fns ++ run_done k more
unfolding run_done
run_done-append k [] more = refl
run_done-append k (stop_cpu ∷ fns) more = run_done-append k fns more
run_done-append k (write_lookup file ∷ fns) more =
    ap (◌∷◌ (record { file = file; profile = k })) (run_done-append k fns more)

adds :
    (j file : String) (fns : List Done) (rest : List Written)
    → run_done j (fns ++ write_lookup file ∷ []) ++ rest
      ≡ run_done j fns ++ record { file = file; profile = j } ∷ rest
adds j file fns rest =
    rw (run_done-append j fns (write_lookup file ∷ []), append_assoc) (unfold run_done in refl)

-- No file that is asked for fails to be created.
abbrev pub CanCreate : System → List String → Type 0
CanCreate s = All λ file. s.create_fails file ≡ false

fine_cons :
    (s : System) (key v : String) (entries : List (String × String))
    → str_eq v "" ≡ false
    → CanCreate s (files ((key, v) ∷ entries))
    → (s.create_fails v ≡ false) × CanCreate s (files entries)
fine_cons s key v entries named fine = rw named at fine

rounds-run_done :
    (s : System) (entries : List (String × String)) (k : String) (done_fns : List Done)
    → CanCreate s (files entries)
    → let (k', fns, good) = rounds s entries k done_fns in
      (good ≡ true)
      × (k' ≡ last_key entries k)
      × ((j : String) → run_done j fns ≡ run_done j done_fns ++ write_all j (files entries))
unfolding rounds
rounds-run_done s [] k done_fns fine = (refl, refl, λ j. sym (append-nil (run_done j done_fns)))
rounds-run_done s ((key, v) ∷ entries) k done_fns fine = elim (Bool-cases (str_eq v "")) [
  | inl empty ↦ rw empty (rounds-run_done s entries key done_fns (rw empty at fine))
  | inr named ↦
      let (created, fine') = fine_cons s key v entries named fine in
      let (good, last, writes) =
        rounds-run_done s entries key (done_fns ++ write_lookup v ∷ []) fine' in
      rw (named, created)
        (good, last, λ j. writes j ∙ adds j v done_fns (write_all j (files entries)))
]

-- Without a CPU profile, and if all files can be created: whatever the order in which the map is
-- visited, each file that was asked for gets the profile of the key that was visited last, not the
-- one that belongs to the file.
pub setup_profiling-last_key :
    (s : System) (entries : List (String × String))
    → CanCreate s (files entries)
    → let (k, fns, good) = setup_profiling s "" entries in
      (good ≡ true) × (run_done k fns ≡ write_all (last_key entries "") (files entries))
unfolding setup_profiling run_done
setup_profiling-last_key s entries fine =
    let (good, last, writes) = rounds-run_done s entries "" [] fine in
    (good, writes _ ∙ ap (λ k. write_all k (files entries)) last)
