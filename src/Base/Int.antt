-- ===== src/Base/Int.antt =====
-- Integers as the program receives them from the wire; the library's stand on the unary numbers.
use Prim.Native.Nat.{ℕ}

-- `negsuc n` is -(n + 1).
pub data ℤ : Type 0 where
  pos : ℕ → ℤ
  negsuc : ℕ → ℤ
