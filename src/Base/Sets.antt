-- ===== src/Base/Sets.antt =====
-- Python sets as lists: membership as a test, difference, intersection, comparison, and the
-- duplicate-free list of a list's values.
use Prim.Native.Nat.{◌≤◌}
use mathlib.Core.Path.{◌≡◌, refl}
use mathlib.Core.Bool.{Bool, true, false, ◌&&◌, ◌||◌, not}
use mathlib.Core.List.{List, [], ◌∷◌, ◌++◌}
use native.Mathlib.Omega.{arith}
use fused_index_top_k.Base.Tests.{if◌then◌else◌, Eq, ◌==◌}
use fused_index_top_k.Base.Lists.{length, filterb}

module _ {ℓ} {A : Type ℓ} ⦃e : Eq A⦄ where
  -- `a in xs`
  abbrev pub contains : List A → A → Bool
  contains [] a = false
  contains (x ∷ xs) a = if x == a then true else contains xs a

  -- `set(xs) <= set(ys)`
  abbrev pub subset : List A → List A → Bool
  subset [] ys = true
  subset (x ∷ xs) ys = if contains ys x then subset xs ys else false

  -- `set(xs) - set(ys)` and `set(xs) & set(ys)`, for a duplicate-free xs
  abbrev pub diff : List A → List A → List A
  diff xs ys = filterb (λ x. not (contains ys x)) xs

  abbrev pub inter : List A → List A → List A
  inter xs ys = filterb (λ x. contains ys x) xs

  -- `frozenset(xs)`: each value once
  unfoldable pub frozenset : List A → List A
  frozenset [] = []
  frozenset (x ∷ xs) = let rest = frozenset xs in if contains rest x then rest else x ∷ rest

  -- no value stands twice
  abbrev pub IsUnique : List A → Type 0
  IsUnique [] = Unit
  IsUnique (x ∷ xs) = (contains xs x ≡ false) × IsUnique xs

  pub eq_self : (a : A) → (a == a) ≡ true
  eq_self a = (e.beq_iff a a).1 refl

  pub subset-contains :
      (xs ys : List A) (a : A) → subset xs ys ≡ true → contains xs a ≡ true → contains ys a ≡ true
  subset-contains [] ys a h m = ground arith
  subset-contains (x ∷ xs) ys a h m = ground (arith, subset-contains xs ys a, e.beq_iff x a)

  pub contains-subset :
      (xs ys : List A)
      → ((a : A) → contains xs a ≡ true → contains ys a ≡ true)
      → subset xs ys ≡ true
  contains-subset [] ys h = refl
  contains-subset (x ∷ xs) ys h =
      ground (arith, h x, eq_self x, contains-subset xs ys (λ a m. h a (ground arith)))

  pub contains-append :
      (xs ys : List A) (a : A) → contains (xs ++ ys) a ≡ (contains xs a || contains ys a)
  contains-append [] ys a = refl
  contains-append (x ∷ xs) ys a = ground (arith, contains-append xs ys a)

  pub contains-filterb :
      (p : A → Bool) (xs : List A) (a : A) → contains (filterb p xs) a ≡ (contains xs a && p a)
  contains-filterb p [] a = refl
  contains-filterb p (x ∷ xs) a = ground (arith, contains-filterb p xs a, e.beq_iff x a)

  pub contains-frozenset : (xs : List A) (a : A) → contains (frozenset xs) a ≡ contains xs a
  unfolding frozenset
  contains-frozenset [] a = refl
  contains-frozenset (x ∷ xs) a =
      ground (arith, contains-frozenset xs a, contains-frozenset xs x, e.beq_iff x a)

  pub frozenset-IsUnique : (xs : List A) → IsUnique (frozenset xs)
  unfolding frozenset
  frozenset-IsUnique [] = tt
  frozenset-IsUnique (x ∷ xs) = ground (arith, frozenset-IsUnique xs)

  pub length-frozenset-le : (xs : List A) → length (frozenset xs) ≤ length xs
  unfolding frozenset
  length-frozenset-le [] = omega arith
  length-frozenset-le (x ∷ xs) = ground (arith, length-frozenset-le xs)

  -- The two lengths agree exactly when nothing stands twice.
  pub length-frozenset-IsUnique : (xs : List A) → length (frozenset xs) ≡ length xs → IsUnique xs
  unfolding frozenset
  length-frozenset-IsUnique [] h = tt
  length-frozenset-IsUnique (x ∷ xs) h =
      ground (arith, length-frozenset-IsUnique xs, length-frozenset-le xs, contains-frozenset xs x)

  pub frozenset_of_unique : (xs : List A) → IsUnique xs → frozenset xs ≡ xs
  unfolding frozenset
  frozenset_of_unique [] h = refl
  frozenset_of_unique (x ∷ xs) h = ground (arith, frozenset_of_unique xs h.1)
