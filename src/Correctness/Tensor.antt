-- ===== src/Correctness/Tensor.antt =====
-- correctness.py, the vectorized path. A tensor carries the values of `indices[:, 0, :]`. `sort` are
-- the values of `torch.sort(row)`.
pub mod Rows
pub mod Accepted
use fused_index_top_k.Api.{PrefillCase}
use fused_index_top_k.Base.{
  ℕ, zero, suc, ◌-◌, ◌^◌, ◌≡◌, min, String, Bool, true, false, not, ◌&&◌, ◌||◌, Option, none, some,
  List, [], ◌∷◌, map, eqb, leb, if◌then◌else◌, ◌==◌, string_eq, nat_eq, anyb, countb, frozenset,
  length, ℤ, is_nonneg, lt_minus_one, outside, nonneg, Result, ok, err, ◌>>=◌, ◌>>◌, raise_if,
}
use fused_index_top_k.Correctness.{
  CorrectnessError, not_causal, bad_shape, bad_dtype, not_contiguous, negative_id, valid_count,
  out_of_range, duplicate_ids, Indices, Cell, int, shape_is, causal_end, TieRows, validate_tied_row,
}

pub record Tensor : Type 0 where
  pub shape : List ℕ
  pub dtype : String
  pub contiguous : Bool
  pub rows : List (List ℤ)

abbrev as_cells : List (List ℤ) → List (List (List Cell))
as_cells [] = []
as_cells (values ∷ rows) = (map int values ∷ []) ∷ as_cells rows

-- The tensor as the duck-typed checks see it.
abbrev pub as_indices : Tensor → Indices
as_indices t = record {
  shape = t.shape;
  dtype = t.dtype;
  contiguous = t.contiguous;
  materialized = as_cells t.rows;
}

-- `torch.iinfo(torch.int32).max`
abbrev pub sentinel : ℕ
sentinel = 2 ^ 31 - 1

-- `torch.where(valid, rows, sentinel)`
abbrev pub normalized : List ℤ → List ℕ
normalized [] = []
normalized (ℤ.pos n ∷ values) = n ∷ normalized values
normalized (ℤ.negsuc n ∷ values) = sentinel ∷ normalized values

-- `(ordered[1:] == ordered[:-1]) & (ordered[1:] != sentinel)`, any
abbrev pub has_duplicate : List ℕ → Bool
has_duplicate [] = false
has_duplicate (x ∷ []) = false
has_duplicate (x ∷ y ∷ ordered) = (eqb y x && not (eqb y sentinel)) || has_duplicate (y ∷ ordered)

-- The first row that fails a vectorized test, `mask.nonzero()[0]`.
abbrev pub first_row : (ℕ → List ℤ → Bool) → ℕ → List (List ℤ) → Option ℕ
first_row fails row [] = none
first_row fails row (values ∷ rows) =
    if fails row values then some row else first_row fails (suc row) rows

abbrev pub raise_at : Option ℕ → (ℕ → CorrectnessError) → Result CorrectnessError (Unit {0})
raise_at none e = ok tt
raise_at (some row) e = err (e row)

module _ (case : PrefillCase) where
  abbrev pub wrong_count : ℕ → List ℤ → Bool
  wrong_count row values =
      not (eqb (countb is_nonneg values) (min (causal_end case row) case.top_k))

  abbrev pub leaves_range : ℕ → List ℤ → Bool
  leaves_range row values = anyb (λ v. is_nonneg v && outside (causal_end case row) v) values

abbrev pub same_values : List ℕ → List ℕ → Bool
same_values [] [] = true
same_values (x ∷ xs) (y ∷ ys) = eqb x y && same_values xs ys
same_values _ _ = false

module _ (sort : List ℕ → List ℕ) where
  unfoldable pub check_tensor : Tensor → PrefillCase → Result CorrectnessError (Unit {0})
  check_tensor t case = do
    raise_if (not case.causal) not_causal
    raise_if (not (shape_is t.shape (case.query_tokens ∷ 1 ∷ case.top_k ∷ []))) bad_shape
    raise_if (not (t.dtype == "int32")) bad_dtype
    raise_if (not t.contiguous) not_contiguous
    raise_at (first_row (λ row values. anyb lt_minus_one values) 0 t.rows) (λ _. negative_id)
    raise_at (first_row (wrong_count case) 0 t.rows) valid_count
    raise_at (first_row (leaves_range case) 0 t.rows) out_of_range
    raise_at (first_row (λ row values. has_duplicate (sort (normalized values))) 0 t.rows)
        duplicate_ids

  -- Whether the two rows have the same sorted values; if not, the tie check decides.
  unfoldable pub compare_tensor_row :
      Option TieRows → ℕ → List ℤ → List ℤ → Result CorrectnessError Bool
  compare_tensor_row ties row candidate baseline =
      if same_values (sort (normalized candidate)) (sort (normalized baseline)) then ok true else do
        validate_tied_row ties row (frozenset (nonneg candidate)) (frozenset (nonneg baseline))
        ok false

  -- The loop over the rows, which counts those that differ.
  unfoldable pub compare_tensor_rows :
      Option TieRows → ℕ → List (List ℤ) → List (List ℤ) → Result CorrectnessError ℕ
  compare_tensor_rows ties row (candidate ∷ candidates) (baseline ∷ baselines) = do
    equal ← compare_tensor_row ties row candidate baseline
    differing ← compare_tensor_rows ties (suc row) candidates baselines
    ok (if equal then differing else suc differing)
  compare_tensor_rows ties row _ _ = ok 0
