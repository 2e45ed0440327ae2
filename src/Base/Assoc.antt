-- ===== src/Base/Assoc.antt =====
-- Go maps with numbers as keys, as lists in the order in which the runtime happens to visit them.
use Prim.Native.Nat.{ℕ}
use mathlib.Core.Path.{◌≡◌, refl}
use mathlib.Core.Bool.{Bool, false, ◌||◌}
use mathlib.Core.List.{List, [], ◌∷◌}
use rtp_over_quic.Base.Tests.{◌==◌, if◌then◌else◌}

module _ {ℓ} {A : Type ℓ} where
  abbrev pub has_key : ℕ → List (ℕ × A) → Bool
  has_key k [] = false
  has_key k ((j, a) ∷ rest) = j == k || has_key k rest

  abbrev pub delete_key : ℕ → List (ℕ × A) → List (ℕ × A)
  delete_key k [] = []
  delete_key k ((j, a) ∷ rest) =
      let others = delete_key k rest in if j == k then others else (j, a) ∷ others

  -- A pointer in the map, and a change of what it points to.
  abbrev pub update_key : ℕ → (A → A) → List (ℕ × A) → List (ℕ × A)
  update_key k change [] = []
  update_key k change ((j, a) ∷ rest) =
      (j, (if j == k then change a else a)) ∷ update_key k change rest

  abbrev pub keys : List (ℕ × A) → List ℕ
  keys [] = []
  keys ((j, a) ∷ rest) = j ∷ keys rest

  pub keys-update_key :
      (k : ℕ) (change : A → A) (m : List (ℕ × A)) → keys (update_key k change m) ≡ keys m
  keys-update_key k change [] = refl
  keys-update_key k change ((j, a) ∷ rest) = λ i. j ∷ keys-update_key k change rest i
