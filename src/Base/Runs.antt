-- ===== src/Base/Runs.antt =====
-- Runs of a step relation, and what every step keeps.

-- Any number of steps.
pub data Steps {S : Type 0} (Step : S → S → Type 0) (s : S) : S → Type 0 where
  here : Steps Step s s
  later : {t u : S} → Steps Step s t → Step t u → Steps Step s u

module _ {S : Type 0} {Step : S → S → Type 0} where
  pub append : {s t u : S} → Steps Step s t → Steps Step t u → Steps Step s u
  append steps here = steps
  append steps (later more step) = later (append steps more) step

  pub first : {s t u : S} → Step s t → Steps Step t u → Steps Step s u
  first step more = append (later here step) more

  -- What each step keeps, a run keeps.
  pub Steps-keeps :
      (P : S → Type 0) → ((s t : S) → Step s t → P s → P t) → {s t : S} → Steps Step s t → P s → P t
  Steps-keeps P keeps here p = p
  Steps-keeps P keeps (later steps step) p = keeps _ _ step (Steps-keeps P keeps steps p)
