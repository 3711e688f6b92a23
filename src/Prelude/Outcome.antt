-- ===== src/Prelude/Outcome.antt =====
-- `Result<T, E>`, and signed integers over the native numbers.
use Prim.Native.Nat.{ℕ}

pub data Result {ℓ} (E A : Type ℓ) : Type ℓ where
  ok : A → Result E A
  err : E → Result E A

-- `negsuc n` is -(n + 1).
pub data ℤ : Type 0 where
  pos : ℕ → ℤ
  negsuc : ℕ → ℤ
