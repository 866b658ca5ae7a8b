-- ===== src/Base/Integers.antt =====
-- The signed machine integers of the sources, where no operation on them leaves their range.
use Prim.Native.Nat.{ℕ}
use mathlib.Core.Bool.{Bool, true, false}
use mathlib.Core.Path.{◌≡◌}
use mathlib.Core.Logic.{◌↔◌}
use native.Mathlib.Omega.{arith}
use quackapi.Base.Tests.{ltb, ◌==◌, ==_iff}

pub data ℤ : Type 0 where
  pos : ℕ → ℤ
  negsuc : ℕ → ℤ

-- `n > 0`
abbrev pub positive : ℤ → Bool
positive (pos n) = ltb 0 n
positive (negsuc n) = false

-- `a == b`
unfoldable pub integer_eq : ℤ → ℤ → Bool
integer_eq (pos m) (pos n) = m == n
integer_eq (negsuc m) (negsuc n) = m == n
integer_eq _ _ = false

pub integer_eq_iff : (a b : ℤ) → (integer_eq a b ≡ true) ↔ (a ≡ b)
unfolding integer_eq
integer_eq_iff (pos m) (pos n) = ground (arith, ==_iff m n)
integer_eq_iff (negsuc m) (negsuc n) = ground (arith, ==_iff m n)
integer_eq_iff (pos m) (negsuc n) = ground arith
integer_eq_iff (negsuc m) (pos n) = ground arith
