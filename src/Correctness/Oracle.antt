-- ===== src/Correctness/Oracle.antt =====
-- correctness.py, `build_score_threshold_oracle`. A score stands for its rank among the FP32
-- values: the code only compares scores, and for finite `a` and `b` the difference `a - b` is zero,
-- positive or negative as the comparison says. `finite` is `torch.isfinite`; `topk n row` are
-- the values of `torch.topk(row, n, largest=True, sorted=True)`. The margins, which the summary
-- only reports, are not modelled.
pub mod TopK
pub mod Views
pub mod Tied
pub mod Exact
use fused_index_top_k.Api.{PrefillCase}
use fused_index_top_k.Base.{
  ℕ, zero, suc, ◌+◌, ◌-◌, String, Bool, true, false, not, ◌&&◌, List, [], ◌∷◌, ltb, leb, eqb,
  if◌then◌else◌, ◌==◌, string_eq, nat_eq, length, get_or, take, range, filterb, anyb, diff, inter,
  frozenset, countb, ℤ, nonneg, Result, ok, err, ◌>>=◌, ◌>>◌, raise_if, Option, none, some,
}
use fused_index_top_k.Correctness.{
  CorrectnessError, bad_scores_shape, bad_scores_dtype, needs_more_context, cutoff_not_finite,
  cutoff_not_ordered, below_cutoff, omitted_above_cutoff, invalid_width, omitted_in_tied_row,
  invalid_tied_count, no_alternatives, shape_is, causal_end, TieRow, TieRows,
}
use fused_index_top_k.Correctness.Tensor.{Tensor}
use fused_index_top_k.Correctness.Compare.{tensor, validate_topk_indices}

pub record Scores : Type 0 where
  pub shape : List ℕ
  pub dtype : String
  pub rows : List (List ℕ)

-- What the vectorized checks see of one eligible row: its scores, and the IDs that the reference
-- selected (an eligible row has no padding).
pub record RowView : Type 0 where
  pub row : ℕ
  pub end : ℕ
  pub scores : List ℕ
  pub selected : List ℕ

abbrev pub score_of : List ℕ → ℕ → ℕ
score_of scores id = get_or scores id 0

-- The rows with `valid_counts > top_k`, in order.
unfoldable pub eligible_rows : PrefillCase → ℕ → List (List ℕ) → List (List ℤ) → List RowView
eligible_rows case row (scores ∷ rows) (values ∷ baselines) =
    let rest = eligible_rows case (suc row) rows baselines in
    let view : RowView = record {
      row = row;
      end = causal_end case row;
      scores = scores;
      selected = nonneg values;
    } in
    if ltb case.top_k (causal_end case row) then view ∷ rest else rest
eligible_rows case row _ _ = []

-- The first eligible row that fails a vectorized test.
abbrev pub first_view : (RowView → Bool) → List RowView → Option ℕ
first_view fails [] = none
first_view fails (v ∷ views) = if fails v then some v.row else first_view fails views

abbrev pub raise_view : Option ℕ → (ℕ → CorrectnessError) → Result CorrectnessError (Unit {0})
raise_view none e = ok tt
raise_view (some row) e = err (e row)

pub record OracleSummary : Type 0 where
  pub rows_checked : ℕ
  pub rows_skipped_valid_count_le_k : ℕ
  pub rows_with_cutoff_ties : ℕ

module _ (finite : ℕ → Bool) (topk : ℕ → List ℕ → List ℕ) (k : ℕ) where
  -- `boundary[:, 0]` and `boundary[:, 1]`: the K-th and the next value
  abbrev pub cutoff : RowView → ℕ
  cutoff v = get_or (topk (suc k) v.scores) (k - 1) 0

  abbrev pub following : RowView → ℕ
  following v = get_or (topk (suc k) v.scores) k 0

  abbrev pub boundary_finite : RowView → Bool
  boundary_finite v = finite (cutoff v) && finite (following v)

  abbrev pub selects_below : RowView → Bool
  selects_below v = anyb (λ id. ltb (score_of v.scores id) (cutoff v)) v.selected

  -- `selected_greater != expected_greater`
  abbrev pub omits_above : RowView → Bool
  omits_above v = not (
      eqb (countb (λ id. ltb (cutoff v) (score_of v.scores id)) v.selected)
        (countb (λ score. ltb (cutoff v) score) (take k (topk (suc k) v.scores))))

  abbrev pub boundary_ids : RowView → List ℕ
  boundary_ids v = filterb (λ id. eqb (score_of v.scores id) (cutoff v)) (range v.end)

  abbrev pub strictly_greater : RowView → ℕ
  strictly_greater v = countb (λ id. ltb (cutoff v) (score_of v.scores id)) (range v.end)

  -- The loop's body at a row whose margin is zero.
  unfoldable pub tie_of : RowView → Result CorrectnessError TieRow
  tie_of v = do
    let selected = frozenset v.selected
    let boundary_set = frozenset (boundary_ids v)
    let greater = strictly_greater v
    raise_if (not (eqb (length selected) k)) (invalid_width v.row)
    raise_if (not (eqb (length (diff selected boundary_set)) greater)) (omitted_in_tied_row v.row)
    raise_if (not (eqb (length (inter selected boundary_set) + greater) k))
        (invalid_tied_count v.row)
    raise_if (leb (length (boundary_ids v)) (k - greater)) (no_alternatives v.row)
    ok (record {
      boundary_ids = boundary_ids v;
      required_boundary_selections = k - greater;
      strictly_greater_count = greater;
    })

  unfoldable pub tie_loop : List RowView → Result CorrectnessError TieRows
  unfolding tie_of
  tie_loop [] = ok []
  tie_loop (v ∷ views) =
      let here = (do tie ← tie_of v; rest ← tie_loop views; ok ((v.row, tie) ∷ rest)) in
      let skipped = tie_loop views in if eqb (cutoff v) (following v) then here else skipped

  -- The checks on the eligible rows.
  unfoldable pub check_views : List RowView → Result CorrectnessError TieRows
  check_views views = do
    raise_if (anyb (λ v. not (boundary_finite v)) views) cutoff_not_finite
    raise_if (anyb (λ v. ltb (cutoff v) (following v)) views) cutoff_not_ordered
    raise_view (first_view selects_below views) below_cutoff
    raise_view (first_view omits_above views) omitted_above_cutoff
    tie_loop views

  -- The checks on the eligible rows, and the summary; with no eligible row there is nothing to check.
  unfoldable pub oracle_of_views :
      PrefillCase → List RowView → Result CorrectnessError (OracleSummary × TieRows)
  oracle_of_views case [] = ok (
    record {
      rows_checked = 0;
      rows_skipped_valid_count_le_k = case.query_tokens;
      rows_with_cutoff_ties = 0;
    },
    [],
  )
  oracle_of_views case (v ∷ views) = do
    raise_if (leb case.context_tokens k) needs_more_context
    ties ← check_views (v ∷ views)
    ok (
      record {
        rows_checked = length (v ∷ views);
        rows_skipped_valid_count_le_k = case.query_tokens - length (v ∷ views);
        rows_with_cutoff_ties = length ties;
      },
      ties,
    )

module _ (sort : List ℕ → List ℕ) (finite : ℕ → Bool) (topk : ℕ → List ℕ → List ℕ) where
  unfoldable pub build_score_threshold_oracle :
      Scores → Tensor → PrefillCase → Result CorrectnessError (OracleSummary × TieRows)
  build_score_threshold_oracle scores baseline case = do
    raise_if (not (shape_is scores.shape (case.query_tokens ∷ case.context_tokens ∷ [])))
        bad_scores_shape
    raise_if (not (scores.dtype == "float32")) bad_scores_dtype
    checked ← validate_topk_indices sort (tensor baseline) case
    oracle_of_views finite topk case.top_k case (eligible_rows case 0 scores.rows baseline.rows)
