-- ===== src/Base/Int.antt =====
-- Python's `int`, as far as the program compares integers.
use Prim.Native.Nat.{ℕ, zero, suc, ◌*◌}
use mathlib.Core.Bool.{Bool, true, false}
use fss_chassis.Base.Tests.{ltb, nat_eq}

-- `negsuc n` is -(n + 1).
pub data ℤ : Type 0 where
  pos negsuc : ℕ → ℤ

-- A length against a limit of the schema: `n > k` and `n < k`.
abbrev pub exceeds : ℕ → ℤ → Bool
exceeds n (pos k) = ltb k n
exceeds n (negsuc k) = true

abbrev pub falls_below : ℕ → ℤ → Bool
falls_below n (pos k) = ltb n k
falls_below n (negsuc k) = false

abbrev negate : ℕ → ℤ
negate zero = pos 0
negate (suc n) = negsuc n

abbrev pub scale : ℕ → ℤ → ℤ
scale k (pos n) = pos (n * k)
scale k (negsuc n) = negate (suc n * k)

abbrev pub int_same : ℤ → ℤ → Bool
int_same (pos m) (pos n) = nat_eq m n
int_same (negsuc m) (negsuc n) = nat_eq m n
int_same _ _ = false
