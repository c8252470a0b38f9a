-- ===== src/Correctness/Compare.antt =====
-- correctness.py, the public checks: they dispatch between the vectorized and the materialized path.
use fused_index_top_k.Api.{PrefillCase}
use fused_index_top_k.Base.{
  ℕ, ◌+◌, ◌-◌, ◌*◌, String, Option, none, some, List, [], ◌∷◌, countb, length, ℤ, is_nonneg, Result,
  ok, ◌>>=◌, ◌>>◌,
}
use fused_index_top_k.Correctness.{CorrectnessError, Indices, validated_sets, TieRows, compare_rows}
use fused_index_top_k.Correctness.Tensor.{Tensor, as_indices, check_tensor, compare_tensor_rows}

-- `_is_torch_tensor` tells the two apart.
pub data IndexArray : Type 0 where
  tensor : Tensor → IndexArray
  plain : Indices → IndexArray

abbrev pub materialize : IndexArray → Indices
materialize (tensor t) = as_indices t
materialize (plain indices) = indices

pub record OutputCheck : Type 0 where
  pub rows : ℕ
  pub top_k : ℕ
  pub valid_ids : ℕ
  pub padding_ids : ℕ

abbrev total_length : List (List ℕ) → ℕ
total_length [] = 0
total_length (xs ∷ rest) = length xs + total_length rest

abbrev total_count : List (List ℤ) → ℕ
total_count [] = 0
total_count (values ∷ rows) = countb is_nonneg values + total_count rows

abbrev output_check : PrefillCase → ℕ → OutputCheck
output_check case valid = record {
  rows = case.query_tokens;
  top_k = case.top_k;
  valid_ids = valid;
  padding_ids = case.query_tokens * case.top_k - valid;
}

pub record ComparisonCheck : Type 0 where
  pub rows_compared : ℕ
  pub comparison : String
  pub cutoff_tie_rows_available : ℕ
  pub cutoff_tie_rows_substituted : ℕ

abbrev comparison_check : PrefillCase → Option TieRows → ℕ → ComparisonCheck
comparison_check case ties differing = record {
  rows_compared = case.query_tokens;
  comparison = elim ties [
    | none ↦ "unordered_exact_id_set"
    | some _ ↦ "unordered_exact_topk_score_threshold"
  ];
  cutoff_tie_rows_available = elim ties [ none ↦ 0 | some t ↦ length t ];
  cutoff_tie_rows_substituted = differing;
}

module _ (sort : List ℕ → List ℕ) where
  unfoldable pub validate_topk_indices :
      IndexArray → PrefillCase → Result CorrectnessError OutputCheck
  validate_topk_indices (tensor t) case = do
    check_tensor sort t case
    ok (output_check case (total_count t.rows))
  validate_topk_indices (plain indices) case = do
    selected ← validated_sets indices case
    ok (output_check case (total_length selected))

  -- the vectorized comparison
  compare_tensors :
      Tensor → Tensor → PrefillCase → Option TieRows → Result CorrectnessError ComparisonCheck
  compare_tensors candidate baseline case ties = do
    check_tensor sort candidate case
    check_tensor sort baseline case
    differing ← compare_tensor_rows sort ties 0 candidate.rows baseline.rows
    ok (comparison_check case ties differing)

  -- the comparison of materialized values
  compare_sets :
      Indices → Indices → PrefillCase → Option TieRows → Result CorrectnessError ComparisonCheck
  compare_sets candidate baseline case ties = do
    candidates ← validated_sets candidate case
    baselines ← validated_sets baseline case
    differing ← compare_rows ties 0 candidates baselines
    ok (comparison_check case ties differing)

  unfoldable pub compare_topk_indices :
      IndexArray
      → IndexArray
      → PrefillCase
      → Option TieRows
      → Result CorrectnessError ComparisonCheck
  unfolding compare_tensors compare_sets
  compare_topk_indices (tensor candidate) (tensor baseline) case ties =
      compare_tensors candidate baseline case ties
  compare_topk_indices (tensor candidate) (plain baseline) case ties =
      compare_sets (as_indices candidate) baseline case ties
  compare_topk_indices (plain candidate) baseline case ties =
      compare_sets candidate (materialize baseline) case ties
