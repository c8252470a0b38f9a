-- ===== src/Samples/Comparison.antt =====
-- A case of two rows: the first has room for all its positions, the second has a tie at the cutoff.
use fused_index_top_k.Api.{PrefillCase}
use fused_index_top_k.Base.{
  ℕ, zero, suc, ◌≤◌, ◌≡◌, refl, Bool, true, List, [], ◌∷◌, ltb, ℤ, get_elem?, some, ok, err,
  insert_sorted, sorted, frozenset, arith, subst,
}
use fused_index_top_k.Correctness.{
  TieRows, causal_end, tie_accepts, validate_tied_row, not_exact_threshold,
}
use fused_index_top_k.Correctness.Tensor.{
  Tensor, check_tensor, compare_tensor_row, compare_tensor_rows,
}
use fused_index_top_k.Correctness.Tensor.Rows.{IsSelection, check_tensor-IsSelection}
use fused_index_top_k.Correctness.Compare.{
  tensor, validate_topk_indices, ComparisonCheck, compare_topk_indices,
}
use fused_index_top_k.Correctness.Oracle.{
  Scores, OracleSummary, eligible_rows, tie_of, tie_loop, check_views, oracle_of_views,
  build_score_threshold_oracle, score_of,
}
use fused_index_top_k.Correctness.Oracle.Views.{IsClean}
use fused_index_top_k.Correctness.Oracle.Exact.{IsTopK, compare_topk_indices-IsTopK}
use fused_index_top_k.Samples.Sorting.{sort, topk, sort-SortLaws, topk-TopKLaws}

abbrev pub case : PrefillCase
case = record {
  case_id = "small";
  query_tokens = 2;
  context_tokens = 3;
  top_k = 2;
  seed = 7;
  batch_size = 1;
  indexer_heads = 64;
  head_dim = 128;
  causal = true;
}

abbrev pub finite : ℕ → Bool
finite score = ltb 0 score

abbrev pub tied_row : List ℕ
tied_row = 7 ∷ 5 ∷ 5 ∷ []

abbrev pub short_row : List ℕ
short_row = 5 ∷ 4 ∷ 0 ∷ []

abbrev pub scores : Scores
scores = record { shape = 2 ∷ 3 ∷ []; dtype = "float32"; rows = short_row ∷ tied_row ∷ [] }

abbrev pub baseline_row : List ℤ
baseline_row = ℤ.pos 0 ∷ ℤ.pos 1 ∷ []

abbrev pub candidate_row : List ℤ
candidate_row = ℤ.pos 2 ∷ ℤ.pos 0 ∷ []

abbrev pub of_rows : List (List ℤ) → Tensor
of_rows rows = record { shape = 2 ∷ 1 ∷ 2 ∷ []; dtype = "int32"; contiguous = true; rows = rows }

abbrev pub baseline : Tensor
baseline = of_rows (baseline_row ∷ baseline_row ∷ [])

abbrev pub candidate : Tensor
candidate = of_rows (baseline_row ∷ candidate_row ∷ [])

abbrev pub summary : OracleSummary
summary = record { rows_checked = 1; rows_skipped_valid_count_le_k = 1; rows_with_cutoff_ties = 1 }

abbrev pub ties : TieRows
ties =
    (
      1,
      record {
        boundary_ids = 1 ∷ 2 ∷ [];
        required_boundary_selections = 1;
        strictly_greater_count = 1;
      },
    )
    ∷ []

abbrev pub check : ComparisonCheck
check = record {
  rows_compared = 2;
  comparison = "unordered_exact_topk_score_threshold";
  cutoff_tie_rows_available = 1;
  cutoff_tie_rows_substituted = 1;
}

built : build_score_threshold_oracle sort finite topk scores baseline case ≡ ok (summary, ties)
unfolding build_score_threshold_oracle validate_topk_indices check_tensor eligible_rows
    oracle_of_views check_views tie_loop tie_of sorted insert_sorted frozenset
built = refl

compared :
    compare_topk_indices sort (tensor candidate) (tensor baseline) case (some ties) ≡ ok check
unfolding compare_topk_indices check_tensor compare_tensor_rows compare_tensor_row validate_tied_row
    tie_accepts sorted insert_sorted frozenset
compared = refl

-- A candidate that leaves a mandatory position out is refused.
refused :
    compare_topk_indices sort
      (tensor (of_rows (baseline_row ∷ (ℤ.pos 1 ∷ ℤ.pos 2 ∷ []) ∷ [])))
      (tensor baseline)
      case
      (some ties)
    ≡ err (not_exact_threshold 1)
unfolding compare_topk_indices check_tensor compare_tensor_rows compare_tensor_row validate_tied_row
    tie_accepts sorted insert_sorted frozenset
refused = refl

first_masked : (j : ℕ) → 2 ≤ j → score_of short_row j ≡ 0
first_masked zero h = absurd (omega arith)
first_masked (suc zero) h = absurd (omega arith)
first_masked (suc (suc zero)) h = refl
first_masked (suc (suc (suc j))) h = refl

tied_masked : (j : ℕ) → 3 ≤ j → score_of tied_row j ≡ 0
tied_masked zero h = absurd (omega arith)
tied_masked (suc zero) h = absurd (omega arith)
tied_masked (suc (suc zero)) h = absurd (omega arith)
tied_masked (suc (suc (suc j))) h = refl

IsClean-rows :
    (j : ℕ) (row : List ℕ) → get_elem? scores.rows j ≡ some row → IsClean (causal_end case j) row
IsClean-rows zero row e =
    let same : short_row ≡ row = cc in
    subst (IsClean 2) same (record { fits = omega arith; masked = first_masked })
IsClean-rows (suc zero) row e =
    let same : tied_row ≡ row = cc in
    subst (IsClean 3) same (record { fits = omega arith; masked = tied_masked })
IsClean-rows (suc (suc j)) row e = ground arith

compare_topk_indices-IsTopK_example : IsTopK 2 3 tied_row (2 ∷ 0 ∷ [])
compare_topk_indices-IsTopK_example =
    compare_topk_indices-IsTopK sort finite topk sort-SortLaws topk-TopKLaws case scores candidate
      baseline summary ties check (omega arith) (omega arith) (omega arith) IsClean-rows built
      compared 1 tied_row candidate_row baseline_row (omega arith) refl refl refl

checked : check_tensor sort candidate case ≡ ok tt
unfolding check_tensor sorted insert_sorted
checked = refl

check_tensor-IsSelection_example : IsSelection 2 3 (2 ∷ 0 ∷ [])
check_tensor-IsSelection_example =
    check_tensor-IsSelection sort sort-SortLaws candidate case 1 candidate_row checked refl
      (omega arith)
