-- ===== src/Config/Ordered.antt =====
-- The comparison of a tuple with its sorted, duplicate-free copy, and the readers that make it.
use fused_index_top_k.Base.{
  ℕ, ◌≡◌, refl, subst, ◌↔◌, ◌⊎◌, inl, inr, Bool, true, List, [], ◌∷◌, leb, Eq, string_eq, nat_eq,
  frozenset, IsUnique, sorted, insert_sorted, arith, Bool-cases, eq_self, frozenset-IsUnique,
  sorted-IsUnique, frozenset_of_unique,
}
use fused_index_top_k.Config.{CaseShapeConfig, shape_eq, shape_leb}
use fused_index_top_k.Config.Read.{list_eqb}

-- Each value stands before the later ones in the order.
abbrev pub AllAbove : {A : Type 0} → (A → A → Bool) → A → List A → Type 0
AllAbove leb x [] = Unit
AllAbove leb x (y ∷ ys) = (leb x y ≡ true) × AllAbove leb x ys

abbrev pub IsAscending : {A : Type 0} → (A → A → Bool) → List A → Type 0
IsAscending leb [] = Unit
IsAscending leb (x ∷ xs) = AllAbove leb x xs × IsAscending leb xs

module _ {A : Type 0} ⦃e : Eq A⦄ where
  pub list_eqb-eq : (xs ys : List A) → list_eqb xs ys ≡ true → xs ≡ ys
  list_eqb-eq [] [] h = refl
  list_eqb-eq [] (y ∷ ys) h = ground arith
  list_eqb-eq (x ∷ xs) [] h = ground arith
  list_eqb-eq (x ∷ xs) (y ∷ ys) h = ground (arith, e.beq_iff x y, list_eqb-eq xs ys)

  pub list_eqb_self : (xs : List A) → list_eqb xs xs ≡ true
  list_eqb_self [] = refl
  list_eqb_self (x ∷ xs) = ground (arith, eq_self x, list_eqb_self xs)

module _ {A : Type 0} ⦃e : Eq A⦄ (leb : A → A → Bool)
    (total : (a b : A) → (leb a b ≡ true) ⊎ (leb b a ≡ true))
    (trans : (a b c : A) → leb a b ≡ true → leb b c ≡ true → leb a c ≡ true) where
  AllAbove-trans : (a x : A) (xs : List A) → leb a x ≡ true → AllAbove leb x xs → AllAbove leb a xs
  AllAbove-trans a x [] h all = tt
  AllAbove-trans a x (y ∷ ys) h all = (trans a x y h all.0, AllAbove-trans a x ys h all.1)

  insert_sorted-AllAbove :
      (b a : A) (xs : List A)
      → leb b a ≡ true
      → AllAbove leb b xs
      → AllAbove leb b (insert_sorted leb a xs)
  unfolding insert_sorted
  insert_sorted-AllAbove b a [] h all = (h, tt)
  insert_sorted-AllAbove b a (x ∷ xs) h all = ground (arith, insert_sorted-AllAbove b a xs)

  insert_sorted-IsAscending :
      (a : A) (xs : List A) → IsAscending leb xs → IsAscending leb (insert_sorted leb a xs)
  unfolding insert_sorted
  insert_sorted-IsAscending a [] h = (tt, tt)
  insert_sorted-IsAscending a (x ∷ xs) h = elim (Bool-cases (leb a x)) [
    | inl le ↦ ground (arith, AllAbove-trans a x xs)
    | inr gt ↦
        ground (arith, insert_sorted-IsAscending a xs, insert_sorted-AllAbove x a xs, total a x)
  ]

  pub sorted-IsAscending : (xs : List A) → IsAscending leb (sorted leb xs)
  unfolding sorted
  sorted-IsAscending [] = tt
  sorted-IsAscending (x ∷ xs) = insert_sorted-IsAscending x (sorted leb xs) (sorted-IsAscending xs)

  insert_sorted_least : (a : A) (xs : List A) → AllAbove leb a xs → insert_sorted leb a xs ≡ a ∷ xs
  unfolding insert_sorted
  insert_sorted_least a [] h = refl
  insert_sorted_least a (x ∷ xs) h = ground arith

  sorted_of_ascending : (xs : List A) → IsAscending leb xs → sorted leb xs ≡ xs
  unfolding sorted
  sorted_of_ascending [] h = refl
  sorted_of_ascending (x ∷ xs) h =
      grind (arith, sorted_of_ascending xs h.1, insert_sorted_least x xs h.0)

  -- The test of the readers holds exactly for ascending lists without duplicates.
  pub canonical_iff :
      (xs : List A)
      → (list_eqb (sorted leb (frozenset xs)) xs ≡ true) ↔ (IsAscending leb xs × IsUnique xs)
  canonical_iff xs = (
    λ h.
        let is = list_eqb-eq (sorted leb (frozenset xs)) xs h in
        (
          subst (IsAscending leb) is (sorted-IsAscending (frozenset xs)),
          subst IsUnique is (sorted-IsUnique leb (frozenset xs) (frozenset-IsUnique xs)),
        ),
    λ h. grind (arith, frozenset_of_unique xs h.1, sorted_of_ascending xs h.0, list_eqb_self xs),
  )

pub leb_total : (a b : ℕ) → (leb a b ≡ true) ⊎ (leb b a ≡ true)
leb_total a b = ground arith

pub leb_trans : (a b c : ℕ) → leb a b ≡ true → leb b c ≡ true → leb a c ≡ true
leb_trans a b c h k = ground arith

pub shape_leb_total : (a b : CaseShapeConfig) → (shape_leb a b ≡ true) ⊎ (shape_leb b a ≡ true)
shape_leb_total a b = ground arith

pub shape_leb_trans :
    (a b c : CaseShapeConfig) → shape_leb a b ≡ true → shape_leb b c ≡ true → shape_leb a c ≡ true
shape_leb_trans a b c h k = ground arith
