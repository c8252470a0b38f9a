-- ===== src/Base/Finite.antt =====
-- Comparing duplicate-free lists by length, and sorting by a test.
use Prim.Native.Nat.{suc, ◌≤◌}
use mathlib.Core.Path.{◌≡◌, refl}
use mathlib.Core.Logic.{inl, inr}
use mathlib.Core.Bool.{Bool, true, false}
use mathlib.Core.List.{List, [], ◌∷◌, ◌++◌}
use native.Mathlib.Omega.{arith}
use fused_index_top_k.Base.Tests.{if◌then◌else◌, Eq, ◌==◌, Bool-cases}
use fused_index_top_k.Base.Lists.{length, filterb}
use fused_index_top_k.Base.Sets.{contains, IsUnique, eq_self, contains-append, contains-filterb}
use fused_index_top_k.Base.Counting.{countb}

module _ {ℓ} {A : Type ℓ} ⦃e : Eq A⦄ where
  erase_one : A → List A → List A
  erase_one a [] = []
  erase_one a (x ∷ xs) = if x == a then xs else x ∷ erase_one a xs

  length-erase_one :
      (a : A) (xs : List A) → contains xs a ≡ true → suc (length (erase_one a xs)) ≡ length xs
  unfolding erase_one
  length-erase_one a [] h = ground arith
  length-erase_one a (x ∷ xs) h = ground (arith, length-erase_one a xs)

  contains-erase_one :
      (a b : A) (xs : List A)
      → (a == b) ≡ false
      → contains xs b ≡ true
      → contains (erase_one a xs) b ≡ true
  unfolding erase_one
  contains-erase_one a b [] ne h = ground arith
  contains-erase_one a b (x ∷ xs) ne h =
      ground (arith, contains-erase_one a b xs, e.beq_iff x a, e.beq_iff x b, e.beq_iff a b)

  -- A duplicate-free list whose values stand in another is not longer.
  pub length-le_of_unique :
      (xs ys : List A)
      → IsUnique xs
      → ((a : A) → contains xs a ≡ true → contains ys a ≡ true)
      → length xs ≤ length ys
  length-le_of_unique [] ys u h = omega arith
  length-le_of_unique (x ∷ xs) ys u h =
      let here = h x (ground (arith, eq_self x)) in
      let rest =
        length-le_of_unique xs (erase_one x ys) u.1
          (λ a m. contains-erase_one x a ys (ground (arith, e.beq_iff x a)) (h a (ground arith))) in
      omega (arith, length-erase_one x ys here)

  -- If it is as long, it holds every value of the other.
  pub contains_of_length :
      (xs ys : List A)
      → IsUnique xs
      → ((a : A) → contains xs a ≡ true → contains ys a ≡ true)
      → length ys ≤ length xs
      → (a : A) → contains ys a ≡ true
      → contains xs a ≡ true
  contains_of_length xs ys u h le a m = elim (Bool-cases (contains xs a)) [
    | inl found ↦ found
    | inr out ↦ absurd (
        omega (
          arith,
          length-le_of_unique (a ∷ xs) ys (out, u) (λ b n. ground (arith, h b, e.beq_iff a b)),
        ))
  ]

module _ {A : Type 0} (leb : A → A → Bool) where
  unfoldable pub insert_sorted : A → List A → List A
  insert_sorted a [] = a ∷ []
  insert_sorted a (x ∷ xs) = if leb a x then a ∷ x ∷ xs else x ∷ insert_sorted a xs

  -- `sorted(xs)`
  unfoldable pub sorted : List A → List A
  unfolding insert_sorted
  sorted [] = []
  sorted (x ∷ xs) = insert_sorted x (sorted xs)

  countb-insert_sorted :
      (p : A → Bool) (a : A) (xs : List A) → countb p (insert_sorted a xs) ≡ countb p (a ∷ xs)
  unfolding insert_sorted
  countb-insert_sorted p a [] = refl
  countb-insert_sorted p a (x ∷ xs) = ground (arith, countb-insert_sorted p a xs)

  -- Sorting keeps every value as often as it stood.
  pub countb-sorted : (p : A → Bool) (xs : List A) → countb p (sorted xs) ≡ countb p xs
  unfolding sorted
  countb-sorted p [] = refl
  countb-sorted p (x ∷ xs) =
      ground (arith, countb-insert_sorted p x (sorted xs), countb-sorted p xs)

module _ {A : Type 0} ⦃e : Eq A⦄ (leb : A → A → Bool) where
  contains-insert_sorted :
      (a b : A) (xs : List A) → contains (insert_sorted leb a xs) b ≡ contains (a ∷ xs) b
  unfolding insert_sorted
  contains-insert_sorted a b [] = refl
  contains-insert_sorted a b (x ∷ xs) = ground (arith, contains-insert_sorted a b xs)

  pub contains-sorted : (xs : List A) (b : A) → contains (sorted leb xs) b ≡ contains xs b
  unfolding sorted
  contains-sorted [] b = refl
  contains-sorted (x ∷ xs) b =
      ground (arith, contains-insert_sorted x b (sorted leb xs), contains-sorted xs b)

  insert_sorted-IsUnique :
      (a : A) (xs : List A)
      → contains xs a ≡ false
      → IsUnique xs
      → IsUnique (insert_sorted leb a xs)
  unfolding insert_sorted
  insert_sorted-IsUnique a [] n u = (refl, tt)
  insert_sorted-IsUnique a (x ∷ xs) n u = ground (
    arith,
    insert_sorted-IsUnique a xs,
    contains-insert_sorted a x xs,
    e.beq_iff x a,
    e.beq_iff a x,
  )

  pub sorted-IsUnique : (xs : List A) → IsUnique xs → IsUnique (sorted leb xs)
  unfolding sorted
  sorted-IsUnique [] u = tt
  sorted-IsUnique (x ∷ xs) u =
      insert_sorted-IsUnique x (sorted leb xs) (ground (arith, contains-sorted xs x))
        (sorted-IsUnique xs u.1)

module _ {ℓ} {A : Type ℓ} ⦃e : Eq A⦄ where
  pub IsUnique-snoc :
      (xs : List A) (a : A) → IsUnique xs → contains xs a ≡ false → IsUnique (xs ++ a ∷ [])
  IsUnique-snoc [] a u n = (refl, tt)
  IsUnique-snoc (x ∷ xs) a u n =
      ground
        (arith, IsUnique-snoc xs a, contains-append xs (a ∷ []) x, e.beq_iff a x, e.beq_iff x a)

  pub filterb-IsUnique : (p : A → Bool) (xs : List A) → IsUnique xs → IsUnique (filterb p xs)
  filterb-IsUnique p [] u = tt
  filterb-IsUnique p (x ∷ xs) u = ground (arith, filterb-IsUnique p xs, contains-filterb p xs x)
