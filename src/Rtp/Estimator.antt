-- ===== src/Rtp/Estimator.antt =====
-- rtp/bandwidth_estimator.go, `RunSCReAM`: the loop that takes the target bitrate of SCReAM to the
-- media source. It is a function on the sequence of what its `select`s choose.
use rtp_over_quic.Base.{
  ℕ, ◌%◌, ◌^◌, ◌≡◌, refl, ap, Bool, true, false, List, [], ◌∷◌, ◌++◌, map, Option, none, some,
  if◌then◌else◌, String, All, arith,
}
use rtp_over_quic.Base.Int.{ℤ, pos, negsuc, ltb_ℤ, to_u64}

-- An estimator arrives on the channel; the ticker fires at a time in milliseconds, and
-- `GetTargetBitrate` and `GetStats` return; the context is cancelled. `SetMedia` may be called at
-- any time.
pub data Event : Type 0 where
  new_estimator cancelled sets_media : Event
  ticks : ℕ → Option ℤ → List String → Event

-- A line of the log, and a call of `SetTargetBitsPerSecond`.
pub data Act : Type 0 where
  logs : ℕ → ℤ → List String → Act
  sets : ℕ → Act

-- Before the first estimator, in the loop, or past `return`.
pub data Place : Type 0 where
  waiting looping returned : Place

-- One tick; the flag says whether there is a media source.
unfoldable pub tick : Bool → ℕ → Option ℤ → List String → List Act
tick media now none stats = []
tick media now (some target) stats =
    if ltb_ℤ target (pos 0)
    then []
    else logs now target stats ∷ (if media then sets (to_u64 target) ∷ [] else [])

unfoldable pub run_scream : Place → Bool → List Event → List Act × Place
unfolding tick
run_scream place media [] = ([], place)
run_scream place media (sets_media ∷ es) = run_scream place true es
run_scream waiting media (new_estimator ∷ es) = run_scream looping media es
run_scream waiting media (cancelled ∷ es) = run_scream returned media es
run_scream waiting media (ticks now target stats ∷ es) = run_scream waiting media es
run_scream looping media (new_estimator ∷ es) = run_scream looping media es
run_scream looping media (cancelled ∷ es) = run_scream returned media es
run_scream looping media (ticks now target stats ∷ es) =
    let (acts, place) = run_scream looping media es in (tick media now target stats ++ acts, place)
run_scream returned media (_ ∷ es) = run_scream returned media es

-- The bitrates that the media source gets, and those in the log.
abbrev pub targets : List Act → List ℕ
targets [] = []
targets (sets n ∷ acts) = n ∷ targets acts
targets (logs now target stats ∷ acts) = targets acts

abbrev pub logged : List Act → List ℤ
logged [] = []
logged (sets n ∷ acts) = logged acts
logged (logs now target stats ∷ acts) = target ∷ logged acts

-- The answers of `GetTargetBitrate` that are not negative.
abbrev pub answers : List Event → List ℕ
answers [] = []
answers (ticks now (some (pos n)) stats ∷ es) = n ∷ answers es
answers (_ ∷ es) = answers es

abbrev IsTick : Event → Type 0
IsTick (ticks now target stats) = Unit {0}
IsTick _ = ⊥

abbrev IsNoEnd : Event → Type 0
IsNoEnd cancelled = ⊥
IsNoEnd _ = Unit {0}

done : (media : Bool) (es : List Event) → run_scream returned media es ≡ ([], returned)
unfolding run_scream
done media [] = refl
done media (new_estimator ∷ es) = done media es
done media (cancelled ∷ es) = done media es
done media (sets_media ∷ es) = done true es
done media (ticks now target stats ∷ es) = done media es

follows :
    (es after : List Event)
    → All IsNoEnd es
    → let (acts, place) = run_scream looping true (es ++ cancelled ∷ after) in
      (targets acts ≡ map (λ n. n % 2 ^ 64) (answers es))
      × (logged acts ≡ map pos (answers es))
      × (place ≡ returned)
unfolding run_scream
follows [] after fine = rw (done true after) (refl, refl, refl)
follows (new_estimator ∷ es) after (here, fine) = follows es after fine
follows (cancelled ∷ es) after (here, fine) = absurd here
follows (sets_media ∷ es) after (here, fine) = follows es after fine
follows (ticks now none stats ∷ es) after (here, fine) = follows es after fine
follows (ticks now (some (pos n)) stats ∷ es) after (here, fine) =
    let (set, log, place) = follows es after fine in
    let not_negative : ltb_ℤ (pos n) (pos 0) ≡ false = ground arith in
    rw not_negative (ap (◌∷◌ (n % 2 ^ 64)) set, ap (◌∷◌ (pos n)) log, place)
follows (ticks now (some (negsuc n)) stats ∷ es) after (here, fine) =
    let negative : ltb_ℤ (negsuc n) (pos 0) ≡ true = ground arith in
    rw negative (follows es after fine)

-- With a media source: ticks before the first estimator do nothing; from then on until the context
-- is cancelled, the source gets exactly the answers of `GetTargetBitrate` that are not negative, in
-- order and modulo 2 ^ 64, the log gets the same, and then the loop is left. Errors and negative
-- answers are passed over.
pub run_scream-targets :
    (before es after : List Event)
    → All IsTick before
    → All IsNoEnd es
    → let (acts, place) =
        run_scream waiting true (before ++ new_estimator ∷ es ++ cancelled ∷ after) in
      (targets acts ≡ map (λ n. n % 2 ^ 64) (answers es))
      × (logged acts ≡ map pos (answers es))
      × (place ≡ returned)
unfolding run_scream
run_scream-targets [] es after early fine = follows es after fine
run_scream-targets (ticks now target stats ∷ before) es after (here, early) fine =
    run_scream-targets before es after early fine
run_scream-targets (new_estimator ∷ before) es after (here, early) fine = absurd here
run_scream-targets (cancelled ∷ before) es after (here, early) fine = absurd here
run_scream-targets (sets_media ∷ before) es after (here, early) fine = absurd here
