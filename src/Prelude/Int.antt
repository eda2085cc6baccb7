-- ===== src/Prelude/Int.antt =====
-- Python's integers over the native numbers: `negsuc n` is -(n + 1).
use Prim.Native.Nat.{ℕ, suc, ◌-◌, min}
use mathlib.Core.Bool.{Bool, false}
use ipbench.Prelude.Tests.{◌==◌}

pub data ℤ : Type 0 where
  pos : ℕ → ℤ
  negsuc : ℕ → ℤ

-- `a == n` for a literal `n` of the source, which is never negative.
abbrev pub is : ℤ → ℕ → Bool
is (pos a) n = a == n
is (negsuc a) n = false

abbrev pub succ : ℤ → ℤ
succ (pos n) = pos (suc n)
succ (negsuc ℕ.zero) = pos 0
succ (negsuc (suc n)) = negsuc n

-- The position in a sequence of `len` elements that a slice's bound stands for.
abbrev pub clamp : ℕ → ℤ → ℕ
clamp len (pos n) = min n len
clamp len (negsuc n) = len - suc n
