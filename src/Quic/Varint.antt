-- ===== src/Quic/Varint.antt =====
-- quic-go's package quicvarint, which is not in the repository: a parameter, with the documented
-- behaviour that the code relies on.
use rtp_over_quic.Base.{ℕ, ◌^◌, ◌<◌, ◌≡◌, List, ◌++◌, Outcome, ok, length}

pub record VarintLib : Type 0 where
  -- The bytes that `Write` writes.
  pub write : ℕ → Outcome (List ℕ)
  -- `Read`: the number, and the bytes that it leaves in the reader.
  pub read : List ℕ → Outcome (ℕ × List ℕ)
  -- `Len`: the length of what `Write` writes.
  pub len : ℕ → ℕ

-- Numbers below 2 ^ 62 are written, in as many bytes as `Len` says, and read back; what follows
-- them is left in the reader.
pub record IsVarint (v : VarintLib) : Type 0 where
  pub writes :
      (id : ℕ) → id < 2 ^ 62 → (enc : List ℕ) × (v.write id ≡ ok enc) × (length enc ≡ v.len id)
  pub reads :
      (id : ℕ) (enc rest : List ℕ) → v.write id ≡ ok enc → v.read (enc ++ rest) ≡ ok (id, rest)
