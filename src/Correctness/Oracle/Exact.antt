-- ===== src/Correctness/Oracle/Exact.antt =====
-- The comparison with the oracle is exact: what it accepts is a TopK of the reference scores.
use fused_index_top_k.Api.{PrefillCase}
use fused_index_top_k.Base.{
  ℕ, zero, suc, ◌-◌, ◌≤◌, ◌<◌, ◌≡◌, inl, inr, refl, sym, ap, Bool, true, false, not, some, List, [],
  ◌∷◌, ltb, eqb, nat_eq, Bool-cases, length, get_elem?, contains, ltb→lt, ltb_false→le, countb,
  count_below, pigeonhole, AllBelow, ℤ, nonneg, ok, raise_if, >>=-eq-ok, arith, ap₂, get_or,
  filterb, range, ◌==◌, string_eq, ◌∙◌,
}
use fused_index_top_k.Correctness.{
  TieRow, TieRows, causal_end, shape_is, bad_scores_shape, bad_scores_dtype,
}
use fused_index_top_k.Correctness.Tensor.{
  Tensor, sentinel, check_tensor, compare_tensor_rows, normalized,
}
use fused_index_top_k.Correctness.Tensor.Rows.{SortLaws, IsSelection, check_tensor-IsSelection}
use fused_index_top_k.Correctness.Tensor.Accepted.{
  same_values→eq, Accepted, same_ids, compare_tensor_rows-Accepted,
}
use fused_index_top_k.Correctness.Compare.{
  tensor, ComparisonCheck, compare_topk_indices, validate_topk_indices,
}
use fused_index_top_k.Correctness.Oracle.{
  Scores, OracleSummary, RowView, score_of, cutoff, eligible_rows, check_views,
  build_score_threshold_oracle, oracle_of_views, boundary_ids, tie_loop,
}
use fused_index_top_k.Correctness.Oracle.TopK.{TopKLaws}
use fused_index_top_k.Correctness.Oracle.Views.{
  Origin, view_at, IsClean, Separates, first_view-none, view-Separates, tie_loop-Origin,
  check_views-parts, eligible_row, view_of_member,
}
use fused_index_top_k.Correctness.Oracle.Tied.{tie_accepts-Separates, AllBelow-contains}

-- An exact TopK of a row: distinct positions of the causal range, k of them or all, and no position
-- that is left out scores more than a selected one.
pub record IsTopK (k end : ℕ) (scores ids : List ℕ) : Type 0 where
  pub selection : IsSelection k end ids
  pub best :
      (i j : ℕ)
      → contains ids i ≡ true
      → j < end
      → contains ids j ≡ false
      → score_of scores j ≤ score_of scores i

Separates-IsTopK :
    (c k end : ℕ) (scores ids : List ℕ)
    → IsSelection k end ids
    → Separates c end scores ids
    → IsTopK k end scores ids
Separates-IsTopK c k end scores ids s d = record {
  selection = s;
  best = λ i j m lt out. elim (Bool-cases (ltb c (score_of scores j))) [
    | inl above ↦ cc (out, d.all_above j lt (ltb→lt _ _ above))
    | inr below ↦ omega (arith, d.at_least i m, ltb_false→le c (score_of scores j) below)
  ];
}

countb_all : (xs : List ℕ) → countb (λ x. true) xs ≡ length xs
countb_all [] = refl
countb_all (x ∷ xs) = ap suc (countb_all xs)

count_below_all : (n : ℕ) → count_below (λ x. true) n ≡ n
count_below_all zero = refl
count_below_all (suc n) = ap suc (count_below_all n)

-- Where the causal range has room for no more than k, the whole range is selected.
short-IsTopK :
    (k end : ℕ) (scores ids : List ℕ) → end ≤ k → IsSelection k end ids → IsTopK k end scores ids
short-IsTopK k end scores ids h s = record {
  selection = s;
  best = λ i j m lt out. cc (
    out,
    pigeonhole (λ x. true) end ids s.unique s.in_range
        (omega (arith, countb_all ids, count_below_all end)) j lt refl,
  );
}

-- A row with the reference's sorted values lies on the same sides of the cutoff.
same-Separates :
    (sort : List ℕ → List ℕ) (laws : SortLaws sort) (c end : ℕ) (scores : List ℕ) (a b : List ℤ)
    → end ≤ sentinel
    → AllBelow end (nonneg a)
    → sort (normalized a) ≡ sort (normalized b)
    → Separates c end scores (nonneg b)
    → Separates c end scores (nonneg a)
same-Separates sort laws c end scores a b small inside e d = record {
  at_least = λ i m.
      let lt = AllBelow-contains end (nonneg a) i inside m in
      d.at_least i (same_ids sort laws a b i e (omega arith) m);
  all_above = λ j lt above. same_ids sort laws b a j (sym e) (omega arith) (d.all_above j lt above);
}

oracle_of_views-ties :
    (finite : ℕ → Bool) (topk : ℕ → List ℕ → List ℕ) (case : PrefillCase) (views : List RowView)
    (summary : OracleSummary) (ties : TieRows)
    → oracle_of_views finite topk case.top_k case views ≡ ok (summary, ties)
    → check_views finite topk case.top_k views ≡ ok ties
unfolding oracle_of_views
oracle_of_views-ties finite topk case [] summary ties h =
    unfold check_views tie_loop in ground arith
oracle_of_views-ties finite topk case (v ∷ views) summary ties h = ground arith

-- A successful oracle has checked its baseline and the eligible rows.
oracle-parts :
    (sort : List ℕ → List ℕ) (finite : ℕ → Bool) (topk : ℕ → List ℕ → List ℕ) (scores : Scores)
    (baseline : Tensor) (case : PrefillCase) (summary : OracleSummary) (ties : TieRows)
    → build_score_threshold_oracle sort finite topk scores baseline case ≡ ok (summary, ties)
    → (check_tensor sort baseline case ≡ ok tt)
      × (check_views finite topk case.top_k (eligible_rows case 0 scores.rows baseline.rows)
          ≡ ok ties)
unfolding build_score_threshold_oracle validate_topk_indices
oracle-parts sort finite topk scores baseline case summary ties h =
    let (_, _, h1) = >>=-eq-ok (raise_if (not (shape_is scores.shape _)) bad_scores_shape) _ h in
    let (_, _, h2) = >>=-eq-ok (raise_if (not (scores.dtype == "float32")) bad_scores_dtype) _ h1 in
    let (_, valid, h3) = >>=-eq-ok (validate_topk_indices sort (tensor baseline) case) _ h2 in
    let (_, checked, _) = >>=-eq-ok (check_tensor sort baseline case) _ valid in
    (ground arith, oracle_of_views-ties finite topk case _ summary ties h3)

compare-parts :
    (sort : List ℕ → List ℕ) (candidate baseline : Tensor) (case : PrefillCase) (ties : TieRows)
    (check : ComparisonCheck)
    → compare_topk_indices sort (tensor candidate) (tensor baseline) case (some ties) ≡ ok check
    → (check_tensor sort candidate case ≡ ok tt)
      × (n : ℕ) × (compare_tensor_rows sort (some ties) 0 candidate.rows baseline.rows ≡ ok n)
unfolding compare_topk_indices
compare-parts sort candidate baseline case ties check h =
    let (_, first, h1) = >>=-eq-ok (check_tensor sort candidate case) _ h in
    let (_, second, h2) = >>=-eq-ok (check_tensor sort baseline case) _ h1 in
    let (n, rows, _) =
      >>=-eq-ok (compare_tensor_rows sort (some ties) 0 candidate.rows baseline.rows) _ h2 in
    (ground arith, n, rows)

module _ (sort : List ℕ → List ℕ) (finite : ℕ → Bool) (topk : ℕ → List ℕ → List ℕ)
    (sl : SortLaws sort) (tl : TopKLaws topk) where
  same_boundary :
      (k : ℕ) (v w : RowView)
      → v.scores ≡ w.scores
      → v.end ≡ w.end
      → boundary_ids finite topk k v ≡ boundary_ids finite topk k w
  same_boundary k v w e f =
      ap₂
        (λ (scores : List ℕ) (end : ℕ).
          filterb (λ id. eqb (score_of scores id) (get_or (topk (suc k) scores) (k - 1) 0))
            (range end))
        e f

  -- The oracle's entry of a row lists the positions of that row at the cutoff.
  entry-boundary :
      (case : PrefillCase) (k : ℕ) (pos : 0 < k) (rows : List (List ℕ)) (baselines : List (List ℤ))
      (j : ℕ) (row : List ℕ) (reference : List ℤ) (tie : TieRow)
      → get_elem? rows j ≡ some row
      → Origin finite topk tl k pos (eligible_rows case 0 rows baselines) j tie
      → tie.boundary_ids ≡ boundary_ids finite topk k (view_at case j row reference)
  entry-boundary case k pos rows baselines j row reference tie er (w, m, same_row, listed) =
      let (i, p, q, r) = view_of_member case 0 rows baselines w m in
      let at : i ≡ j = omega arith in
      let here : get_elem? rows j ≡ some w.scores = rw at at r in
      listed
      ∙ same_boundary k w (view_at case j row reference) (ground arith)
          (q ∙ ap (causal_end case) same_row)

  -- The eligible rows: the accepted row is separated by the cutoff.
  Accepted-Separates :
      (case : PrefillCase) (scores : Scores) (baseline : Tensor) (ties : TieRows) (j : ℕ)
      (row : List ℕ) (values reference : List ℤ)
      → 0 < case.top_k
      → causal_end case j ≤ sentinel
      → IsClean (causal_end case j) row
      → check_tensor sort baseline case ≡ ok tt
      → check_views finite topk case.top_k (eligible_rows case 0 scores.rows baseline.rows)
        ≡ ok ties
      → get_elem? scores.rows j ≡ some row
      → get_elem? baseline.rows j ≡ some reference
      → IsSelection case.top_k (causal_end case j) (nonneg values)
      → Accepted sort ties j values reference
      → case.top_k < causal_end case j
      → (c : ℕ) × Separates c (causal_end case j) row (nonneg values)
  Accepted-Separates case scores baseline ties j row values reference pos small clean checked views
        er eb s acc lt =
      let v = view_at case j row reference in
      let m =
        eligible_row case 0 j scores.rows baseline.rows j row reference (omega arith) er eb lt in
      let (low, high, loop) = check_views-parts finite topk tl case.top_k pos _ ties views in
      let in_b = check_tensor-IsSelection sort sl baseline case j reference checked eb small in
      let sides =
        view-Separates finite topk tl case.top_k pos v in_b clean (first_view-none _ _ v low m)
          (first_view-none _ _ v high m) in
      (
        cutoff finite topk case.top_k v,
        elim acc [
          | inl same ↦
              same-Separates sort sl _ _ row values reference small s.in_range
                (same_values→eq _ _ same) sides
          | inr (tie, e, h) ↦
              tie_accepts-Separates _ _ row (nonneg values) (nonneg reference) tie
                (entry-boundary case case.top_k pos scores.rows baseline.rows j row reference tie er
                  (tie_loop-Origin finite topk tl case.top_k pos _ ties j tie loop e))
                h sides
        ],
      )

  -- The vectorized comparison with the oracle accepts exact results only. Let the oracle be built
  -- from reference scores whose rows hold the rank of -inf from the causal end on, by a `sort` and a
  -- `topk` that keep their documented laws, for a case with 0 < K and Q <= N < 2^31. If the
  -- comparison of a candidate with the baseline then succeeds, then every row of the candidate holds
  -- min(K, causal end) distinct positions of the causal range, and no position that it leaves out
  -- scores more than one that it selects.
  pub compare_topk_indices-IsTopK :
      (case : PrefillCase) (scores : Scores) (candidate baseline : Tensor) (summary : OracleSummary)
      (ties : TieRows) (check : ComparisonCheck)
      → 0 < case.top_k
      → case.query_tokens ≤ case.context_tokens
      → case.context_tokens ≤ sentinel
      → ((j : ℕ) (row : List ℕ)
          → get_elem? scores.rows j ≡ some row
          → IsClean (causal_end case j) row)
      → build_score_threshold_oracle sort finite topk scores baseline case ≡ ok (summary, ties)
      → compare_topk_indices sort (tensor candidate) (tensor baseline) case (some ties) ≡ ok check
      → (j : ℕ) (row : List ℕ) (values reference : List ℤ) → j < case.query_tokens
      → get_elem? scores.rows j ≡ some row
      → get_elem? candidate.rows j ≡ some values
      → get_elem? baseline.rows j ≡ some reference
      → IsTopK case.top_k (causal_end case j) row (nonneg values)
  compare_topk_indices-IsTopK case scores candidate baseline summary ties check pos qn fits clean
        built compared j row values reference lt er ec eb =
      let (checked, views) =
        oracle-parts sort finite topk scores baseline case summary ties built in
      let (first, n, rows) = compare-parts sort candidate baseline case ties check compared in
      let small : causal_end case j ≤ sentinel = omega arith in
      let s = check_tensor-IsSelection sort sl candidate case j values first ec small in
      let acc =
        compare_tensor_rows-Accepted sort ties 0 j n candidate.rows baseline.rows j values reference
          (omega arith) rows ec eb in
      elim (Bool-cases (ltb case.top_k (causal_end case j))) [
        | inl long ↦
            let (c, sides) =
              Accepted-Separates case scores baseline ties j row values reference pos small
                (clean j row er) checked views er eb s acc (ltb→lt _ _ long) in
            Separates-IsTopK c _ _ row (nonneg values) s sides
        | inr short ↦ short-IsTopK _ _ row (nonneg values) (ltb_false→le _ _ short) s
      ]
