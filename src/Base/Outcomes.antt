-- ===== src/Base/Outcomes.antt =====
-- Go's `(value, error)` pair, and a run-time panic.
use Prim.Native.String.{String}

-- `err e` returns the error whose text is `e`; `panic` ends the goroutine.
pub data Outcome {ℓ} (A : Type ℓ) : Type ℓ where
  ok : A → Outcome A
  err : String → Outcome A
  panic : Outcome A

-- `if err != nil { return …, err }` before the rest of the function.
infixl 5 ◌>>=◌
abbrev pub ◌>>=◌ {ℓ κ} :
    {Value : Type ℓ} {Next : Type κ} → Outcome Value → (Value → Outcome Next) → Outcome Next
panic >>= rest = panic
err text >>= rest = err text
ok value >>= rest = rest value
