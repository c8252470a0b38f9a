-- ===== src/Correctness/Oracle/Views.antt =====
-- From the checks of the oracle to facts about each row.
use fused_index_top_k.Api.{PrefillCase}
use fused_index_top_k.Base.{
  ℕ, zero, suc, ◌+◌, ◌-◌, ◌≤◌, ◌<◌, ◌≡◌, ◌⊎◌, inl, inr, refl, Bool, true, false, none, some, List,
  [], ◌∷◌, ltb, eqb, if◌then◌else◌, nat_eq, ltb_false→le, eqb_iff, length, get_elem?, anyb,
  contains, countb, count_below, pigeonhole, ℤ, nonneg, ok, arith, Bool-cases, lt→ltb, >>=-eq-ok,
  Member,
}
use fused_index_top_k.Correctness.{causal_end, TieRow, TieRows, tie_row}
use fused_index_top_k.Correctness.Tensor.Rows.{IsSelection}
use fused_index_top_k.Correctness.Oracle.{
  RowView, score_of, eligible_rows, first_view, cutoff, following, selects_below, omits_above,
  boundary_ids, tie_of, tie_loop, check_views,
}
use fused_index_top_k.Correctness.Oracle.TopK.{
  TopKLaws, count_above_cutoff, countb-eq-positions, count_below_tail,
}

-- A row of the reference scores: every position from the causal end on has the rank of -inf.
pub record IsClean (end : ℕ) (scores : List ℕ) : Type 0 where
  pub fits : end ≤ length scores
  pub masked : (j : ℕ) → end ≤ j → score_of scores j ≡ 0

-- The selected IDs score at least c, and every position above c is selected.
pub record Separates (c end : ℕ) (scores ids : List ℕ) : Type 0 where
  pub at_least : (i : ℕ) → contains ids i ≡ true → c ≤ score_of scores i
  pub all_above : (j : ℕ) → j < end → c < score_of scores j → contains ids j ≡ true

anyb-false :
    (p : ℕ → Bool) (xs : List ℕ) (i : ℕ) → anyb p xs ≡ false → contains xs i ≡ true → p i ≡ false
anyb-false p [] i h m = ground arith
anyb-false p (x ∷ xs) i h m = ground (arith, anyb-false p xs i, eqb_iff x i)

pub first_view-none :
    (fails : RowView → Bool) (views : List RowView) (v : RowView)
    → first_view fails views ≡ none
    → Member v views
    → fails v ≡ false
first_view-none fails (w ∷ views) v h (inl e) = ground arith
first_view-none fails (w ∷ views) v h (inr m) = ground (arith, first_view-none fails views v)
first_view-none fails [] v h m = absurd m

module _ (finite : ℕ → Bool) (topk : ℕ → List ℕ → List ℕ) (laws : TopKLaws topk) (k : ℕ)
    (positive : 0 < k) where
  -- The reference's selection in an eligible row lies on the right sides of the cutoff.
  pub view-Separates :
      (v : RowView)
      → IsSelection k v.end v.selected
      → IsClean v.end v.scores
      → selects_below finite topk k v ≡ false
      → omits_above finite topk k v ≡ false
      → Separates (cutoff finite topk k v) v.end v.scores v.selected
  view-Separates v s clean low high = record {
    at_least = λ i m. ltb_false→le _ _ (anyb-false _ v.selected i low m);
    all_above = λ j lt above.
        pigeonhole passes v.end v.selected s.unique s.in_range counts j lt (ground arith);
  }
    where
      passes : ℕ → Bool
      passes id = ltb (cutoff finite topk k v) (score_of v.scores id)

      tail : count_below passes (length v.scores) ≡ count_below passes v.end
      tail =
          let e : length v.scores ≡ v.end + (length v.scores - v.end) = omega (arith, clean.fits) in
          rw e (
            count_below_tail passes v.end (length v.scores - v.end)
              (λ j h. ground (arith, clean.masked j h)))

      counts : countb passes v.selected ≡ count_below passes v.end
      counts = ground (
        arith,
        count_above_cutoff topk laws k v.scores positive,
        countb-eq-positions (λ score. ltb (cutoff finite topk k v) score) v.scores,
        tail,
      )

  tie_of-boundary :
      (v : RowView) (tie : TieRow)
      → tie_of finite topk k v ≡ ok tie
      → tie.boundary_ids ≡ boundary_ids finite topk k v
  unfolding tie_of
  tie_of-boundary v tie h = ground arith

  -- The row that an entry of the oracle belongs to.
  abbrev pub Origin : List RowView → ℕ → TieRow → Type 0
  Origin views row tie =
      (v : RowView) × Member v views
      × (v.row ≡ row)
      × (tie.boundary_ids ≡ boundary_ids finite topk k v)

  Origin-cons :
      (v : RowView) (views : List RowView) (row : ℕ) (tie : TieRow)
      → Origin views row tie
      → Origin (v ∷ views) row tie
  Origin-cons v views row tie (w, m, e, f) = (w, inr m, e, f)

  Origin-row :
      (v : RowView) (views : List RowView) (ties : TieRows) (row : ℕ) (first tie : TieRow)
      → tie_of finite topk k v ≡ ok first
      → (tie_row row ties ≡ some tie → Origin views row tie)
      → tie_row row ((v.row, first) ∷ ties) ≡ some tie
      → Origin (v ∷ views) row tie
  Origin-row v views ties row first tie h rest e = elim (Bool-cases (eqb v.row row)) [
    | inl same ↦ (v, inl refl, (eqb_iff _ _).0 same, ground (arith, tie_of-boundary v first h))
    | inr other ↦ Origin-cons v views row tie (rest (ground arith))
  ]

  pub tie_loop-Origin :
      (views : List RowView) (ties : TieRows) (row : ℕ) (tie : TieRow)
      → tie_loop finite topk k views ≡ ok ties
      → tie_row row ties ≡ some tie
      → Origin views row tie
  unfolding tie_loop
  tie_loop-Origin [] ties row tie h e = ground arith
  tie_loop-Origin (v ∷ views) ties row tie h e =
      elim (Bool-cases (eqb (cutoff finite topk k v) (following finite topk k v))) [
        | inr skip ↦
            Origin-cons v views row tie (tie_loop-Origin views ties row tie (rw skip at h) e)
        | inl tied ↦
            let (first, p, q) = >>=-eq-ok (tie_of finite topk k v) _ (rw tied at h) in
            let (rest, r, z) = >>=-eq-ok (tie_loop finite topk k views) _ q in
            Origin-row v views rest row first tie p (tie_loop-Origin views rest row tie r)
              (ground arith)
      ]

  pub check_views-parts :
      (views : List RowView) (ties : TieRows)
      → check_views finite topk k views ≡ ok ties
      → (first_view (selects_below finite topk k) views ≡ none)
        × (first_view (omits_above finite topk k) views ≡ none)
        × (tie_loop finite topk k views ≡ ok ties)
  unfolding check_views
  check_views-parts views ties h = ground arith

module _ (b : Bool) (v w : RowView) (views : List RowView) where
  Member-if : Member v views → Member v (if b then w ∷ views else views)
  Member-if m = elim (Bool-cases b) [ inl e ↦ rw e (inr m) | inr e ↦ rw e m ]

  Member-if_cases : Member v (if b then w ∷ views else views) → (v ≡ w) ⊎ Member v views
  Member-if_cases m = elim (Bool-cases b) [ inl e ↦ rw e at m | inr e ↦ inr (rw e at m) ]

abbrev pub view_at : PrefillCase → ℕ → List ℕ → List ℤ → RowView
view_at case row scores values = record {
  row = row;
  end = causal_end case row;
  scores = scores;
  selected = nonneg values;
}

-- Where a row of the tensors stands among the eligible rows.
pub eligible_row :
    (case : PrefillCase) (row n : ℕ) (rows : List (List ℕ)) (baselines : List (List ℤ)) (j : ℕ)
    (scores : List ℕ) (values : List ℤ)
    → row + j ≡ n
    → get_elem? rows j ≡ some scores
    → get_elem? baselines j ≡ some values
    → case.top_k < causal_end case n
    → Member (view_at case n scores values) (eligible_rows case row rows baselines)
unfolding eligible_rows
eligible_row case row n [] baselines j scores values o e f lt = ground arith
eligible_row case row n (s ∷ rows) [] j scores values o e f lt = ground arith
eligible_row case row n (s ∷ rows) (b ∷ baselines) zero scores values o e f lt =
    let start : row ≡ n = omega arith in rw start (rw (lt→ltb _ _ lt) (inl (ground arith)))
eligible_row case row n (s ∷ rows) (b ∷ baselines) (suc j) scores values o e f lt =
    Member-if _ _ _ _
      (eligible_row case (suc row) n rows baselines j scores values (omega arith) e f lt)

-- Every eligible view shows the scores of its row.
pub view_of_member :
    (case : PrefillCase) (row : ℕ) (rows : List (List ℕ)) (baselines : List (List ℤ)) (v : RowView)
    → Member v (eligible_rows case row rows baselines)
    → (j : ℕ) × (v.row ≡ row + j)
      × (v.end ≡ causal_end case v.row)
      × (get_elem? rows j ≡ some v.scores)
unfolding eligible_rows
view_of_member case row [] baselines v m = absurd m
view_of_member case row (s ∷ rows) [] v m = absurd m
view_of_member case row (s ∷ rows) (b ∷ baselines) v m =
    elim (Member-if_cases (ltb case.top_k (causal_end case row)) v (view_at case row s b)
      (eligible_rows case (suc row) rows baselines) m) [
        | inl e ↦ (0, ground arith, ground arith, ground arith)
        | inr later ↦
            let (j, p, q, r) = view_of_member case (suc row) rows baselines v later in
            (suc j, omega arith, q, r)
      ]
