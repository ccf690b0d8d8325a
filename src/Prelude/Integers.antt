-- ===== src/Prelude/Integers.antt =====
-- `int` and durations, which can be negative.
use Prim.Native.Nat.{ℕ}

pub data ℤ : Type 0 where
  pos negsuc : ℕ → ℤ
