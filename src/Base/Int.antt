-- ===== src/Base/Int.antt =====
-- Signed integers, for domain numbers, ports and state codes.
use Prim.Native.Nat.{ℕ}

-- `negsuc n` is -(n + 1).
pub data ℤ : Type 0 where
  pos : ℕ → ℤ
  negsuc : ℕ → ℤ
