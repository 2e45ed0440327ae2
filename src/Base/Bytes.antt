-- ===== src/Base/Bytes.antt =====
-- Big-endian numbers in byte slices, as encoding/binary writes and reads them.
use rtp_over_quic.Base.{
  ℕ, zero, suc, ◌+◌, ◌*◌, ◌/◌, ◌%◌, ◌^◌, ◌≤◌, ◌<◌, ◌≡◌, refl, ap, ◌∙◌, List, [], ◌∷◌, ◌++◌, Option,
  none, some, arith, length, drop,
}

abbrev pub IsByte : ℕ → Type 0
IsByte b = b < 256

abbrev pub put_uint16 : ℕ → List ℕ
put_uint16 v = (v / 256 % 256) ∷ (v % 256) ∷ []

abbrev pub put_uint32 : ℕ → List ℕ
put_uint32 v = (v / 16777216 % 256) ∷ (v / 65536 % 256) ∷ (v / 256 % 256) ∷ (v % 256) ∷ []

-- `none`: the slice is too short, and Go panics.
abbrev pub uint16 : List ℕ → Option ℕ
uint16 (a ∷ b ∷ rest) = some (a * 256 + b)
uint16 _ = none

abbrev pub uint32 : List ℕ → Option ℕ
uint32 (a ∷ b ∷ c ∷ d ∷ rest) = some (a * 16777216 + b * 65536 + c * 256 + d)
uint32 _ = none

pub uint16-put_uint16 : (v : ℕ) (rest : List ℕ) → v < 65536 → uint16 (put_uint16 v ++ rest) ≡ some v
uint16-put_uint16 v rest h = ap some (omega arith)

pub uint32-put_uint32 :
    (v : ℕ) (rest : List ℕ) → v < 2 ^ 32 → uint32 (put_uint32 v ++ rest) ≡ some v
uint32-put_uint32 v rest h = ap some (omega arith)

pub uint16-some : (l : List ℕ) → 2 ≤ length l → (v : ℕ) × (uint16 l ≡ some v)
uint16-some [] h = absurd (omega arith)
uint16-some (a ∷ []) h = absurd (omega arith)
uint16-some (a ∷ b ∷ rest) h = (a * 256 + b, refl)

pub uint32-some : (l : List ℕ) → 4 ≤ length l → (v : ℕ) × (uint32 l ≡ some v)
uint32-some [] h = absurd (omega arith)
uint32-some (a ∷ []) h = absurd (omega arith)
uint32-some (a ∷ b ∷ []) h = absurd (omega arith)
uint32-some (a ∷ b ∷ c ∷ []) h = absurd (omega arith)
uint32-some (a ∷ b ∷ c ∷ d ∷ rest) h = (a * 16777216 + b * 65536 + c * 256 + d, refl)

pub drop-add {ℓ} : {A : Type ℓ} (n m : ℕ) (xs : List A) → drop (n + m) xs ≡ drop m (drop n xs)
drop-add zero m xs = let e : zero + m ≡ m = omega arith in ap (λ k. drop k xs) e
drop-add (suc n) m (x ∷ xs) =
    let e : suc n + m ≡ suc (n + m) = omega arith in ap (λ k. drop k (x ∷ xs)) e ∙ drop-add n m xs
drop-add (suc n) zero [] = let e : suc n + zero ≡ suc n = omega arith in ap (λ k. drop k []) e
drop-add (suc n) (suc m) [] =
    let e : suc n + suc m ≡ suc (n + suc m) = omega arith in ap (λ k. drop k []) e
