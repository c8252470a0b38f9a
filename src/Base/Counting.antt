-- ===== src/Base/Counting.antt =====
-- How many values pass a test, in a list and below a number.
use Prim.Native.Nat.{ℕ, zero, suc, ◌+◌, ◌<◌}
use mathlib.Core.Path.{◌≡◌, refl}
use mathlib.Core.Bool.{Bool, true, false, ◌&&◌, not}
use mathlib.Core.List.{List, [], ◌∷◌}
use native.Mathlib.Omega.{arith}
use fused_index_top_k.Base.Tests.{if◌then◌else◌, ltb, nat_eq, ◌==◌}
use fused_index_top_k.Base.Sets.{contains, IsUnique}

-- `sum(p(x) for x in xs)`
abbrev pub countb {ℓ} : {A : Type ℓ} → (A → Bool) → List A → ℕ
countb p [] = 0
countb p (x ∷ xs) = if p x then suc (countb p xs) else countb p xs

-- how many j < n pass the test
abbrev pub count_below : (ℕ → Bool) → ℕ → ℕ
count_below p zero = 0
count_below p (suc n) = if p n then suc (count_below p n) else count_below p n

pub count_below-split :
    (p q : ℕ → Bool) (n : ℕ)
    → count_below p n ≡ count_below (λ j. p j && q j) n + count_below (λ j. p j && not (q j)) n
count_below-split p q zero = omega arith
count_below-split p q (suc n) = ground (arith, count_below-split p q n)

-- If nothing is counted, nothing passes.
pub count_below_zero : (p : ℕ → Bool) (n j : ℕ) → count_below p n ≡ 0 → j < n → p j ≡ false
count_below_zero p zero j h lt = elim lt [ ]
count_below_zero p (suc n) j h lt = ground (arith, count_below_zero p n j)

-- One number counts once.
count_below_one :
    (p : ℕ → Bool) (b n : ℕ)
    → count_below (λ j. p j && b == j) n ≡ (if ltb b n && p b then 1 else 0)
count_below_one p b zero = ground arith
count_below_one p b (suc n) = ground (arith, count_below_one p b n)

count_below-disjoint :
    (p q : ℕ → Bool) (b n : ℕ)
    → q b ≡ false
    → count_below (λ j. p j && (if b == j then true else q j)) n
      ≡ count_below (λ j. p j && b == j) n + count_below (λ j. p j && q j) n
count_below-disjoint p q b zero h = omega arith
count_below-disjoint p q b (suc n) h = ground (arith, count_below-disjoint p q b n h)

abbrev pub AllBelow : ℕ → List ℕ → Type 0
AllBelow n [] = Unit
AllBelow n (x ∷ xs) = (x < n) × AllBelow n xs

count_below-none : (p : ℕ → Bool) (n : ℕ) → 0 ≡ count_below (λ j. p j && false) n
count_below-none p zero = refl
count_below-none p (suc n) = ground (arith, count_below-none p n)

-- Counting in a duplicate-free list of numbers below n is counting its members below n.
pub countb-eq-count_below :
    (p : ℕ → Bool) (n : ℕ) (xs : List ℕ)
    → IsUnique xs
    → AllBelow n xs
    → countb p xs ≡ count_below (λ j. p j && contains xs j) n
countb-eq-count_below p n [] u b = count_below-none p n
countb-eq-count_below p n (x ∷ xs) u b = ground (
  arith,
  countb-eq-count_below p n xs u.1 b.1,
  count_below-disjoint p (contains xs) x n u.0,
  count_below_one p x n,
)

-- Pigeonhole: a duplicate-free list of numbers below n that counts as many passing numbers as
-- there are below n holds them all.
pub pigeonhole :
    (p : ℕ → Bool) (n : ℕ) (xs : List ℕ)
    → IsUnique xs
    → AllBelow n xs
    → countb p xs ≡ count_below p n
    → (j : ℕ) → j < n
    → p j ≡ true
    → contains xs j ≡ true
pigeonhole p n xs u b h j lt pj = ground (
  arith,
  countb-eq-count_below p n xs u b,
  count_below-split p (contains xs) n,
  count_below_zero (λ i. p i && not (contains xs i)) n j
      (omega (arith, countb-eq-count_below p n xs u b, count_below-split p (contains xs) n)) lt,
)
