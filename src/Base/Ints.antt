-- ===== src/Base/Ints.antt =====
-- Signed integers, as Python's unbounded `int`: `negsuc n` is -(n + 1).
use Prim.Native.Nat.{ℕ}

pub data ℤ : Type 0 where
  pos : ℕ → ℤ
  negsuc : ℕ → ℤ
