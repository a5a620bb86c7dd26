-- ===== src/Base/Int.antt =====
-- C's `int`, as the integer that it stands for.
use Prim.Native.Nat.{ℕ}

-- `negsuc n` is -(n + 1).
pub data ℤ : Type 0 where
  pos : ℕ → ℤ
  negsuc : ℕ → ℤ

-- What an `int` function of the program returns: 0, or a negative number.
pub data Rc : Type 0 where
  ok fail : Rc
