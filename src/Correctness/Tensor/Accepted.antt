-- ===== src/Correctness/Tensor/Accepted.antt =====
-- When the vectorized comparison accepts a row of the candidate, given the reference's row.
use fused_index_top_k.Base.{
  ℕ, zero, suc, ◌+◌, ◌≤◌, ◌≡◌, ◌≢◌, ◌⊎◌, inl, inr, refl, ap, Bool, true, some, List, [], ◌∷◌, eqb,
  nat_eq, eqb_iff, Bool-cases, get_elem?, contains, frozenset, countb, ℤ, nonneg, ok, >>=-eq-ok,
  arith, Option-cases,
}
use fused_index_top_k.Correctness.{TieRow, TieRows, tie_row, tie_accepts, validate_tied_row}
use fused_index_top_k.Correctness.Tensor.{
  sentinel, normalized, same_values, compare_tensor_rows, compare_tensor_row,
}
use fused_index_top_k.Correctness.Tensor.Rows.{SortLaws, count_of_contains}

pub same_values→eq : (xs ys : List ℕ) → same_values xs ys ≡ true → xs ≡ ys
same_values→eq [] [] h = refl
same_values→eq [] (y ∷ ys) h = ground arith
same_values→eq (x ∷ xs) [] h = ground arith
same_values→eq (x ∷ xs) (y ∷ ys) h = ground (arith, same_values→eq xs ys, eqb_iff x y)

contains_of_count :
    (x : ℕ) (values : List ℤ)
    → x ≢ sentinel
    → 1 ≤ countb (eqb x) (normalized values)
    → contains (nonneg values) x ≡ true
contains_of_count x [] ne h = ground arith
contains_of_count x (ℤ.pos n ∷ values) ne h = ground (arith, contains_of_count x values)
contains_of_count x (ℤ.negsuc n ∷ values) ne h = ground (arith, contains_of_count x values)

-- Rows with the same sorted values hold the same IDs.
pub same_ids :
    (sort : List ℕ → List ℕ) (laws : SortLaws sort) (a b : List ℤ) (x : ℕ)
    → sort (normalized a) ≡ sort (normalized b)
    → x ≢ sentinel
    → contains (nonneg a) x ≡ true
    → contains (nonneg b) x ≡ true
same_ids sort laws a b x h ne m = contains_of_count x b ne (
    omega (
      arith,
      laws.keeps (eqb x) (normalized a),
      laws.keeps (eqb x) (normalized b),
      ap (countb (eqb x)) h,
      count_of_contains x a m,
    ))

-- What an accepted row of the comparison shows.
abbrev pub Accepted : (List ℕ → List ℕ) → TieRows → ℕ → List ℤ → List ℤ → Type 0
Accepted sort ties row a b =
    (same_values (sort (normalized a)) (sort (normalized b)) ≡ true)
    ⊎ ((tie : TieRow) × (tie_row row ties ≡ some tie)
        × (tie_accepts tie (frozenset (nonneg a)) (frozenset (nonneg b)) ≡ true))

validate_tied_row-ok :
    (ties : TieRows) (row : ℕ) (actual expected : List ℕ)
    → validate_tied_row (some ties) row actual expected ≡ ok tt
    → (tie : TieRow) × (tie_row row ties ≡ some tie) × (tie_accepts tie actual expected ≡ true)
unfolding validate_tied_row
validate_tied_row-ok ties row actual expected h = elim (Option-cases (tie_row row ties)) [
  | inl e ↦ ground arith
  | inr (tie, e) ↦ (tie, e, ground arith)
]

compare_tensor_row-Accepted :
    (sort : List ℕ → List ℕ) (ties : TieRows) (row : ℕ) (a b : List ℤ) (equal : Bool)
    → compare_tensor_row sort (some ties) row a b ≡ ok equal
    → Accepted sort ties row a b
unfolding compare_tensor_row
compare_tensor_row-Accepted sort ties row a b equal h =
    elim (Bool-cases (same_values (sort (normalized a)) (sort (normalized b)))) [
      | inl same ↦ inl same
      | inr differ ↦
          let (_, checked, _) =
            >>=-eq-ok
              (validate_tied_row (some ties) row (frozenset (nonneg a)) (frozenset (nonneg b))) _
              (rw differ at h) in
          inr (validate_tied_row-ok ties row _ _ checked)
    ]

pub compare_tensor_rows-Accepted :
    (sort : List ℕ → List ℕ) (ties : TieRows) (row at n : ℕ) (candidates baselines : List (List ℤ))
    (j : ℕ) (a b : List ℤ)
    → row + j ≡ at
    → compare_tensor_rows sort (some ties) row candidates baselines ≡ ok n
    → get_elem? candidates j ≡ some a
    → get_elem? baselines j ≡ some b
    → Accepted sort ties at a b
unfolding compare_tensor_rows
compare_tensor_rows-Accepted sort ties row at n [] baselines j a b o h e f = ground arith
compare_tensor_rows-Accepted sort ties row at n (x ∷ xs) [] j a b o h e f = ground arith
compare_tensor_rows-Accepted sort ties row at n (x ∷ xs) (y ∷ ys) zero a b o h e f =
    let (equal, first, _) = >>=-eq-ok (compare_tensor_row sort (some ties) row x y) _ h in
    let start : row ≡ at = omega arith in
    compare_tensor_row-Accepted sort ties at a b equal (ground arith)
compare_tensor_rows-Accepted sort ties row at n (x ∷ xs) (y ∷ ys) (suc j) a b o h e f =
    let (equal, _, rest) = >>=-eq-ok (compare_tensor_row sort (some ties) row x y) _ h in
    let (m, later, _) = >>=-eq-ok (compare_tensor_rows sort (some ties) (suc row) xs ys) _ rest in
    compare_tensor_rows-Accepted sort ties (suc row) at m xs ys j a b (omega arith) later e f
