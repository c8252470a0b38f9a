-- ===== src/Correctness/Tensor/Rows.antt =====
-- What the vectorized checks establish of each row of a tensor.
use fused_index_top_k.Api.{PrefillCase}
use fused_index_top_k.Base.{
  ℕ, zero, suc, ◌+◌, ◌≤◌, ◌<◌, ◌≡◌, refl, ◌≢◌, min, Bool, true, false, ◌&&◌, none, some, List, [],
  ◌∷◌, eqb, ◌==◌, string_eq, nat_eq, anyb, countb, contains, IsUnique, AllBelow, get_elem?, length,
  ℤ, is_nonneg, lt_minus_one, outside, nonneg, ok, arith,
}
use fused_index_top_k.Correctness.{causal_end, shape_is}
use fused_index_top_k.Correctness.Tensor.{
  Tensor, sentinel, normalized, has_duplicate, first_row, wrong_count, leaves_range, check_tensor,
}

-- no value is below the one before it
abbrev pub IsAscending : List ℕ → Type 0
IsAscending [] = Unit
IsAscending (x ∷ []) = Unit
IsAscending (x ∷ y ∷ rest) = (x ≤ y) × IsAscending (y ∷ rest)

-- What `torch.sort` documents: ascending values, each as often as it was given.
pub record SortLaws (sort : List ℕ → List ℕ) : Type 0 where
  pub ascending : (xs : List ℕ) → IsAscending (sort xs)
  pub keeps : (p : ℕ → Bool) (xs : List ℕ) → countb p (sort xs) ≡ countb p xs

-- The row holds distinct IDs of the causal range, as many as there is room for.
pub record IsSelection (k end : ℕ) (ids : List ℕ) : Type 0 where
  pub size : length ids ≡ min k end
  pub unique : IsUnique ids
  pub in_range : AllBelow end ids

pub first_row-none :
    (fails : ℕ → List ℤ → Bool) (row : ℕ) (rows : List (List ℤ)) (j : ℕ) (values : List ℤ)
    → first_row fails row rows ≡ none
    → get_elem? rows j ≡ some values
    → fails (row + j) values ≡ false
first_row-none fails row [] j values h e = ground arith
first_row-none fails row (v ∷ rows) zero values h e = ground arith
first_row-none fails row (v ∷ rows) (suc j) values h e =
    ground (arith, first_row-none fails (suc row) rows j values)

pub first_row-none_at :
    (fails : ℕ → List ℤ → Bool) (rows : List (List ℤ)) (j : ℕ) (values : List ℤ)
    → first_row fails 0 rows ≡ none
    → get_elem? rows j ≡ some values
    → fails j values ≡ false
first_row-none_at fails rows j values h e = ground (arith, first_row-none fails 0 rows j values h e)

length-nonneg : (values : List ℤ) → length (nonneg values) ≡ countb is_nonneg values
length-nonneg [] = refl
length-nonneg (ℤ.pos n ∷ values) = ground (arith, length-nonneg values)
length-nonneg (ℤ.negsuc n ∷ values) = length-nonneg values

nonneg-AllBelow :
    (end : ℕ) (values : List ℤ)
    → anyb (λ v. is_nonneg v && outside end v) values ≡ false
    → AllBelow end (nonneg values)
nonneg-AllBelow end [] h = tt
nonneg-AllBelow end (ℤ.pos n ∷ values) h = ground (arith, nonneg-AllBelow end values)
nonneg-AllBelow end (ℤ.negsuc n ∷ values) h = nonneg-AllBelow end values h

-- In an ascending list, a value below the head does not stand.
count-below_head :
    (x y : ℕ) (rest : List ℕ) → IsAscending (y ∷ rest) → x < y → countb (eqb x) (y ∷ rest) ≡ 0
count-below_head x y [] h lt = ground arith
count-below_head x y (z ∷ rest) h lt = ground (arith, count-below_head x z rest h.1)

-- Equal values stand side by side.
count_of_no_duplicate :
    (x : ℕ) (xs : List ℕ)
    → IsAscending xs
    → has_duplicate xs ≡ false
    → x ≢ sentinel
    → countb (eqb x) xs ≤ 1
count_of_no_duplicate x [] a h ne = omega arith
count_of_no_duplicate x (y ∷ []) a h ne = ground arith
count_of_no_duplicate x (y ∷ z ∷ rest) a h ne =
    ground (arith, count_of_no_duplicate x (z ∷ rest) a.1, count-below_head x z rest a.1)

pub count_of_contains :
    (x : ℕ) (values : List ℤ)
    → contains (nonneg values) x ≡ true
    → 1 ≤ countb (eqb x) (normalized values)
count_of_contains x [] h = ground arith
count_of_contains x (ℤ.pos n ∷ values) h = ground (arith, count_of_contains x values)
count_of_contains x (ℤ.negsuc n ∷ values) h = ground (arith, count_of_contains x values)

pub nonneg-IsUnique :
    (end : ℕ) (values : List ℤ)
    → end ≤ sentinel
    → AllBelow end (nonneg values)
    → ((x : ℕ) → x ≢ sentinel → countb (eqb x) (normalized values) ≤ 1)
    → IsUnique (nonneg values)
nonneg-IsUnique end [] b r h = tt
nonneg-IsUnique end (ℤ.pos n ∷ values) b r h = (
  ground (arith, count_of_contains n values, h n (omega arith)),
  nonneg-IsUnique end values b r.1 (λ x ne. ground (arith, h x ne)),
)
nonneg-IsUnique end (ℤ.negsuc n ∷ values) b r h =
    nonneg-IsUnique end values b r (λ x ne. ground (arith, h x ne))

module _ (sort : List ℕ → List ℕ) (laws : SortLaws sort) where
  no_duplicate_count :
      (values : List ℤ) (x : ℕ)
      → has_duplicate (sort (normalized values)) ≡ false
      → x ≢ sentinel
      → countb (eqb x) (normalized values) ≤ 1
  no_duplicate_count values x h ne = omega (
    arith,
    laws.keeps (eqb x) (normalized values),
    count_of_no_duplicate x (sort (normalized values)) (laws.ascending (normalized values)) h ne,
  )

  -- What the four vectorized tests say of one row.
  row_of_tests :
      (case : PrefillCase) (row : ℕ) (values : List ℤ)
      → causal_end case row ≤ sentinel
      → wrong_count case row values ≡ false
      → leaves_range case row values ≡ false
      → has_duplicate (sort (normalized values)) ≡ false
      → IsSelection case.top_k (causal_end case row) (nonneg values)
  row_of_tests case row values b c r d =
      let inside = nonneg-AllBelow (causal_end case row) values r in
      record {
        size = ground (arith, length-nonneg values);
        unique =
            nonneg-IsUnique (causal_end case row) values b inside
              (λ x ne. no_duplicate_count values x d ne);
        in_range = inside;
      }

  -- The tests that a tensor passes.
  pub record PassesTests (t : Tensor) (case : PrefillCase) : Type 0 where
    pub causal : case.causal ≡ true
    pub shape : shape_is t.shape (case.query_tokens ∷ 1 ∷ case.top_k ∷ []) ≡ true
    pub dtype : (t.dtype == "int32") ≡ true
    pub contiguous : t.contiguous ≡ true
    pub sentinels : first_row (λ row values. anyb lt_minus_one values) 0 t.rows ≡ none
    pub counts : first_row (wrong_count case) 0 t.rows ≡ none
    pub range : first_row (leaves_range case) 0 t.rows ≡ none
    pub distinct :
        first_row (λ row values. has_duplicate (sort (normalized values))) 0 t.rows ≡ none

  pub check_tensor-PassesTests :
      (t : Tensor) (case : PrefillCase) → check_tensor sort t case ≡ ok tt → PassesTests t case
  unfolding check_tensor
  check_tensor-PassesTests t case h = ground arith

  pub PassesTests-check_tensor :
      (t : Tensor) (case : PrefillCase) → PassesTests t case → check_tensor sort t case ≡ ok tt
  unfolding check_tensor
  PassesTests-check_tensor t case h = ground arith

  -- A tensor that passes the vectorized checks holds a selection in every row.
  pub check_tensor-IsSelection :
      (t : Tensor) (case : PrefillCase) (row : ℕ) (values : List ℤ)
      → check_tensor sort t case ≡ ok tt
      → get_elem? t.rows row ≡ some values
      → causal_end case row ≤ sentinel
      → IsSelection case.top_k (causal_end case row) (nonneg values)
  check_tensor-IsSelection t case row values h e b =
      let passed = check_tensor-PassesTests t case h in
      row_of_tests case row values b
        (first_row-none_at (wrong_count case) t.rows row values passed.counts e)
        (first_row-none_at (leaves_range case) t.rows row values passed.range e)
        (first_row-none_at _ t.rows row values passed.distinct e)
