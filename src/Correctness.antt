-- ===== src/Correctness.antt =====
-- src/fused_index_topk/correctness.py: the contract of the TopK output and the comparison of a
-- candidate with the exact reference. An error names the check that raised and, where the message
-- has it, the row; the other text of the messages is not modelled. The functions here work on
-- materialized values; `Tensor` has the vectorized path, `Compare` the dispatch between the two.
pub mod Tensor
pub mod Compare
pub mod Oracle
use fused_index_top_k.Api.{PrefillCase, query_start}
use fused_index_top_k.Base.{
  ℕ, zero, suc, ◌+◌, ◌-◌, ◌*◌, min, String, ◌≡◌, Bool, true, false, not, ◌&&◌, ◌||◌, Option, none,
  some, List, [], ◌∷◌, map, ltb, leb, eqb, if◌then◌else◌, ◌==◌, Eq, string_eq, nat_eq, length,
  filterb, anyb, contains, subset, diff, inter, frozenset, countb, ℤ, is_minus_one, lt_minus_one,
  outside, nonneg, Result, ok, err, ◌>>=◌, ◌>>◌, raise_if,
}

pub data CorrectnessError : Type 0 where
  not_causal bad_shape bad_dtype not_contiguous inconsistent_shape : CorrectnessError
  negative_id : CorrectnessError
  bad_group bad_width non_integer invalid_sentinel valid_count out_of_range duplicate_ids :
      ℕ → CorrectnessError
  differs not_exact_threshold : ℕ → CorrectnessError
  bad_scores_shape bad_scores_dtype needs_more_context cutoff_not_finite cutoff_not_ordered :
      CorrectnessError
  below_cutoff omitted_above_cutoff invalid_width omitted_in_tied_row invalid_tied_count
        no_alternatives :
      ℕ → CorrectnessError

-- One materialized value: a Python `int`, or anything else (`bool` included).
pub data Cell : Type 0 where
  int : ℤ → Cell
  other : Cell

-- The array that a variant returns, as the checks read it.
pub record Indices : Type 0 where
  pub shape : List ℕ
  pub dtype : String
  pub contiguous : Bool
  pub materialized : List (List (List Cell))

abbrev pub shape_is : List ℕ → List ℕ → Bool
shape_is [] [] = true
shape_is (x ∷ xs) (y ∷ ys) = eqb x y && shape_is xs ys
shape_is _ _ = false

-- the values of a row that holds only `int`
abbrev pub integers : List Cell → Option (List ℤ)
integers [] = some []
integers (int v ∷ cells) = elim (integers cells) [ none ↦ none | some vs ↦ some (v ∷ vs) ]
integers (other ∷ cells) = none

-- `case.query_start + row_index + 1`
abbrev pub causal_end : PrefillCase → ℕ → ℕ
causal_end case row = query_start case + row + 1

abbrev pub is_empty {ℓ} : {A : Type ℓ} → List A → Bool
is_empty [] = true
is_empty (x ∷ xs) = false

-- The checks of one row, in order, once its values are known to be integers. After the range
-- check every valid ID is a natural number.
unfoldable pub check_row : PrefillCase → ℕ → List ℤ → Result CorrectnessError (List ℕ)
check_row case row values = do
  raise_if (anyb lt_minus_one values) (invalid_sentinel row)
  let valid = filterb (λ v. not (is_minus_one v)) values
  raise_if (not (eqb (length valid) (min case.top_k (causal_end case row)))) (valid_count row)
  raise_if (anyb (outside (causal_end case row)) valid) (out_of_range row)
  let selected = frozenset (nonneg valid)
  raise_if (not (eqb (length selected) (length valid))) (duplicate_ids row)
  ok selected

unfoldable pub validated_row : PrefillCase → ℕ → List (List Cell) → Result CorrectnessError (List ℕ)
unfolding check_row
validated_row case row (cells ∷ []) = do
  raise_if (not (eqb (length cells) case.top_k)) (bad_width row)
  elim (integers cells) [ none ↦ err (non_integer row) | some values ↦ check_row case row values ]
validated_row case row _ = err (bad_group row)

unfoldable pub validated_rows :
    PrefillCase → ℕ → List (List (List Cell)) → Result CorrectnessError (List (List ℕ))
validated_rows case row [] = ok []
validated_rows case row (r ∷ rows) = do
  selected ← validated_row case row r
  rest ← validated_rows case (suc row) rows
  ok (selected ∷ rest)

unfoldable pub validated_sets : Indices → PrefillCase → Result CorrectnessError (List (List ℕ))
unfolding validated_rows validated_row
validated_sets indices case = do
  raise_if (not case.causal) not_causal
  raise_if (not (shape_is indices.shape (case.query_tokens ∷ 1 ∷ case.top_k ∷ []))) bad_shape
  raise_if (not (indices.dtype == "int32")) bad_dtype
  raise_if (not indices.contiguous) not_contiguous
  raise_if (not (eqb (length indices.materialized) case.query_tokens)) inconsistent_shape
  validated_rows case 0 indices.materialized

-- The compact oracle of a row whose cutoff score is tied.
pub record TieRow : Type 0 where
  pub boundary_ids : List ℕ
  pub required_boundary_selections : ℕ
  pub strictly_greater_count : ℕ

abbrev pub TieRows : Type 0
TieRows = List (ℕ × TieRow)

abbrev pub tie_row : ℕ → TieRows → Option TieRow
tie_row row [] = none
tie_row row ((r, tie) ∷ ties) = if eqb r row then some tie else tie_row row ties

unfoldable pub tie_accepts : TieRow → List ℕ → List ℕ → Bool
tie_accepts tie actual expected =
    let boundary = frozenset tie.boundary_ids in
    let mandatory = diff expected boundary in
    let missing_mandatory = diff mandatory actual in
    let below = diff (diff actual mandatory) boundary in
    let selected_boundary = length (inter actual boundary) in
    is_empty missing_mandatory
    && is_empty below
    && eqb selected_boundary tie.required_boundary_selections

unfoldable pub validate_tied_row :
    Option TieRows → ℕ → List ℕ → List ℕ → Result CorrectnessError (Unit {0})
unfolding tie_accepts
validate_tied_row none row actual expected = err (differs row)
validate_tied_row (some ties) row actual expected = elim (tie_row row ties) [
  | none ↦ err (differs row)
  | some tie ↦ raise_if (not (tie_accepts tie actual expected)) (not_exact_threshold row)
]

-- `actual == expected` for two sets
abbrev pub same_set : List ℕ → List ℕ → Bool
same_set xs ys = subset xs ys && subset ys xs

-- Whether the two sets are equal; if not, the tie check decides.
unfoldable pub compare_row : Option TieRows → ℕ → List ℕ → List ℕ → Result CorrectnessError Bool
compare_row ties row actual expected =
    if same_set actual expected
    then ok true
    else do validate_tied_row ties row actual expected; ok false

-- The loop over the zipped rows, which counts those that differ.
unfoldable pub compare_rows :
    Option TieRows → ℕ → List (List ℕ) → List (List ℕ) → Result CorrectnessError ℕ
compare_rows ties row (actual ∷ candidates) (expected ∷ baselines) = do
  equal ← compare_row ties row actual expected
  differing ← compare_rows ties (suc row) candidates baselines
  ok (if equal then differing else suc differing)
compare_rows ties row _ _ = ok 0
