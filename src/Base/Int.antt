-- ===== src/Base/Int.antt =====
-- Signed integers over the native numbers, as far as token IDs need them.
use Prim.Native.Nat.{ℕ}
use mathlib.Core.Bool.{Bool, true, false}
use mathlib.Core.List.{List, [], ◌∷◌}
use fused_index_top_k.Base.Tests.{leb, eqb}

-- `negsuc n` is -(n + 1).
pub data ℤ : Type 0 where
  pos : ℕ → ℤ
  negsuc : ℕ → ℤ

-- `v >= 0`, `v == -1`, `v < -1`
abbrev pub is_nonneg : ℤ → Bool
is_nonneg (pos n) = true
is_nonneg (negsuc n) = false

abbrev pub is_minus_one : ℤ → Bool
is_minus_one (pos n) = false
is_minus_one (negsuc n) = eqb n 0

abbrev pub lt_minus_one : ℤ → Bool
lt_minus_one (pos n) = false
lt_minus_one (negsuc n) = leb 1 n

-- `v < 0 or v >= n`
abbrev pub outside : ℕ → ℤ → Bool
outside n (pos m) = leb n m
outside n (negsuc m) = true

-- The non-negative values, as natural numbers.
abbrev pub nonneg : List ℤ → List ℕ
nonneg [] = []
nonneg (pos n ∷ vs) = n ∷ nonneg vs
nonneg (negsuc n ∷ vs) = nonneg vs
