-- ===== src/Quic/FlowIds.antt =====
-- quic/sender.go, `newFlowID`.
use mathlib.Core.Path.{subst}
use rtp_over_quic.Base.{
  ℕ, zero, suc, ◌+◌, ◌-◌, ◌^◌, ◌≤◌, ◌<◌, ◌≡◌, ◌≢◌, refl, true, false, List, [], ◌∷◌, Option, none,
  some, mem_nat, if◌then◌else◌, length, arith, Bool-cases, ◌==◌, ==_iff, inl, inr, ◌⊎◌,
}

abbrev max_uint64 : ℕ
max_uint64 = 2 ^ 64 - 1

-- The loop, with the number of rounds that are left: the first number that is no key of the map.
unfoldable pub first_unused : ℕ → ℕ → List ℕ → Option ℕ
first_unused zero i flow_ids = none
first_unused (suc rounds) i flow_ids =
    let rest = first_unused rounds (i + 1) flow_ids in if mem_nat i flow_ids then rest else some i

-- The new ID and the map with it, or an error where all are taken.
unfoldable pub new_flow_id : List ℕ → Option (ℕ × List ℕ)
new_flow_id flow_ids = elim (first_unused max_uint64 0 flow_ids) [
  | none ↦ none
  | some i ↦ some (i, i ∷ flow_ids)
]

-- All numbers from `i` on, `n` of them, are in the list.
abbrev AllUsed : ℕ → ℕ → List ℕ → Type 0
AllUsed i n ids = (j : ℕ) → i ≤ j → j < i + n → mem_nat j ids ≡ true

erase : ℕ → List ℕ → List ℕ
erase k [] = []
erase k (x ∷ xs) = if k == x then xs else x ∷ erase k xs

length-erase :
    (k : ℕ) (ids : List ℕ) → mem_nat k ids ≡ true → suc (length (erase k ids)) ≡ length ids
unfolding erase
length-erase k [] h = cc
length-erase k (x ∷ xs) h = ground (arith, length-erase k xs)

mem-erase : (j k : ℕ) (ids : List ℕ) → j ≢ k → mem_nat j ids ≡ true → mem_nat j (erase k ids) ≡ true
unfolding erase
mem-erase j k [] ne h = h
mem-erase j k (x ∷ xs) ne h = ground (arith, mem-erase j k xs)

-- So the list is at least as long.
pigeonhole : (n i : ℕ) (ids : List ℕ) → AllUsed i n ids → n ≤ length ids
pigeonhole zero i ids all = omega arith
pigeonhole (suc n) i ids all = omega (
  arith,
  length-erase i ids (all i (omega arith) (omega arith)),
  pigeonhole n (i + 1) (erase i ids)
      (λ j lo hi. mem-erase j i ids (omega arith) (all j (omega arith) (omega arith))),
)

-- What the loop finds.
abbrev IsFirst : ℕ → ℕ → List ℕ → ℕ → Type 0
IsFirst i n ids j =
    (i ≤ j)
    × (j < i + n)
    × (mem_nat j ids ≡ false)
    × ((m : ℕ) → i ≤ m → m < j → mem_nat m ids ≡ true)

-- A number from `i` on is `i`, or a number from `i + 1` on.
from-head : (P : ℕ → Type 0) (i j : ℕ) → P i → (i + 1 ≤ j → P j) → i ≤ j → P j
from-head P i j first later h = elim (Bool-cases (i == j)) [
  | inl e ↦ subst P ((==_iff i j).0 e) first
  | inr e ↦ later (ground arith)
]

first_unused_cases :
    (n i : ℕ) (ids : List ℕ)
    → ((first_unused n i ids ≡ none) × AllUsed i n ids)
      ⊎ ((j : ℕ) × (first_unused n i ids ≡ some j) × IsFirst i n ids j)
unfolding first_unused
first_unused_cases zero i ids = inl (refl, λ j lo hi. absurd (omega arith))
first_unused_cases (suc n) i ids = elim (Bool-cases (mem_nat i ids)) [
  | inr unused ↦
      inr (i, rw unused, (omega arith, omega arith, unused, λ m lo hi. absurd (omega arith)))
  | inl used ↦ elim (first_unused_cases n (i + 1) ids) [
    | inl (e, all) ↦ inl (
      rw used e,
      λ j lo hi. from-head (λ k. mem_nat k ids ≡ true) i j used (λ lo'. all j lo' (omega arith)) lo,
    )
    | inr (j, e, (lo, hi, unused, all)) ↦ inr (
      j,
      rw used e,
      (
        omega arith,
        omega arith,
        unused,
        λ m lo' hi'. from-head (λ k. mem_nat k ids ≡ true) i m used (λ lo''. all m lo'' hi') lo',
      ),
    )
  ]
]

-- With fewer than 2 ^ 64 - 1 flows, `newFlowID` returns the smallest number that is not in use, and
-- marks it as used. The number is at most the number of flows.
pub new_flow_id-IsFresh :
    (ids : List ℕ)
    → length ids < max_uint64
    → (i : ℕ) × (new_flow_id ids ≡ some (i, i ∷ ids))
      × (mem_nat i ids ≡ false)
      × (i ≤ length ids)
      × ((m : ℕ) → m < i → mem_nat m ids ≡ true)
unfolding new_flow_id
new_flow_id-IsFresh ids h = elim (first_unused_cases max_uint64 0 ids) [
  | inl (e, all) ↦ absurd (omega (arith, pigeonhole max_uint64 0 ids all))
  | inr (j, e, (lo, hi, unused, all)) ↦ (
    j,
    rw (e, new_flow_id),
    unused,
    pigeonhole j 0 ids (λ m lo' hi'. all m lo' (omega arith)),
    λ m hi'. all m (omega arith) hi',
  )
]
