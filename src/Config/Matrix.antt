-- ===== src/Config/Matrix.antt =====
-- Every case of an accepted configuration can be built, for each purpose.
use fused_index_top_k.Base.{
  ℕ, ◌≤◌, ◌≡◌, refl, ap, subst, inl, inr, String, true, false, some, List, [], ◌∷◌, map, ◌==◌,
  string_eq, nat_eq, filterb, contains, IsUnique, ok, arith, Bool-cases, eq_self,
}
use fused_index_top_k.Config.{Json, Floats, CaseShapeConfig, LabConfig, shape_eq, shape_eqb_iff}
use fused_index_top_k.Config.Parse.{parse_config}
use fused_index_top_k.Api.{PrefillCase}
use fused_index_top_k.Config.Readers.{IsCaseShape, All}
use fused_index_top_k.Config.Workload.{contexts}
use fused_index_top_k.Config.Contract.{TruncatesMinusOne}
use fused_index_top_k.Config.Canonical.{IsWorkload}
use fused_index_top_k.Config.Accepted.{parse_config-IsConfig}
use fused_index_top_k.Config.Cases.{
  shape_matches, allowed_cases, case_of, make_case, make_all, benchmark_cases, correctness_cases,
  profile_cases, build_prefill_cases,
}

-- The bounds on the sizes of a case.
abbrev pub IsPrefillCase : PrefillCase → Type 0
IsPrefillCase case =
    (1 ≤ case.query_tokens)
    × (case.query_tokens ≤ case.context_tokens)
    × (1 ≤ case.top_k)
    × (case.top_k ≤ case.context_tokens)
    × (case.batch_size ≡ 1)
    × (case.causal ≡ true)
    × (1 ≤ case.indexer_heads)
    × (1 ≤ case.head_dim)

abbrev pub shape_of : PrefillCase → CaseShapeConfig
shape_of case = record { query_tokens = case.query_tokens; context_tokens = case.context_tokens }

filter_none :
    (cases : List CaseShapeConfig) (s : CaseShapeConfig)
    → contains cases s ≡ false
    → filterb (shape_matches s.context_tokens (some s.query_tokens)) cases ≡ []
filter_none [] s h = refl
filter_none (x ∷ xs) s h = ground (arith, filter_none xs s)

-- Both numbers pick exactly one case.
filter_only :
    (cases : List CaseShapeConfig) (s : CaseShapeConfig)
    → IsUnique cases
    → contains cases s ≡ true
    → filterb (shape_matches s.context_tokens (some s.query_tokens)) cases ≡ s ∷ []
filter_only [] s u h = ground arith
filter_only (x ∷ xs) s u h = elim (Bool-cases (x == s)) [
  | inl here ↦ ground (arith, shape_eqb_iff x s, filter_none xs s)
  | inr there ↦ ground (arith, filter_only xs s u.1)
]

All-contains :
    (P : CaseShapeConfig → Type 0) (cases : List CaseShapeConfig) (s : CaseShapeConfig)
    → All P cases
    → contains cases s ≡ true
    → P s
All-contains P [] s all h = ground arith
All-contains P (x ∷ xs) s all h = elim (Bool-cases (x == s)) [
  | inl here ↦ subst P ((shape_eqb_iff x s).0 here) all.0
  | inr there ↦ All-contains P xs s all.1 (ground arith)
]

All-contexts :
    (k : ℕ) (cases : List CaseShapeConfig)
    → All (λ n. k ≤ n) (contexts cases)
    → All (λ (s : CaseShapeConfig). k ≤ s.context_tokens) cases
All-contexts k [] all = tt
All-contexts k (x ∷ xs) all = (all.0, All-contexts k xs all.1)

module _ {F : Type 0} where
  make_all_total :
      (config : LabConfig F) (purpose : String) (allowed : List CaseShapeConfig)
      → allowed_cases config purpose ≡ ok allowed
      → IsUnique allowed
      → (cases : List CaseShapeConfig)
      → ((s : CaseShapeConfig) → contains cases s ≡ true → contains allowed s ≡ true)
      → make_all config purpose cases
        ≡ ok (map (λ (s : CaseShapeConfig). case_of config purpose s.context_tokens s) cases)
  unfolding make_case
  make_all_total config purpose allowed is u [] inside = refl
  make_all_total config purpose allowed is u (x ∷ xs) inside = grind (
    arith,
    is,
    filter_only allowed x u (inside x (ground (arith, eq_self x))),
    make_all_total config purpose allowed is u xs (λ s m. inside s (ground arith)),
  )

  shapes_made :
      (config : LabConfig F) (purpose : String) (cases : List CaseShapeConfig)
      → map shape_of
          (map (λ (s : CaseShapeConfig). case_of config purpose s.context_tokens s) cases)
        ≡ cases
  shapes_made config purpose [] = refl
  shapes_made config purpose (x ∷ xs) = ap (λ r. x ∷ r) (shapes_made config purpose xs)

  cases_run :
      (config : LabConfig F) (purpose : String) (cases : List CaseShapeConfig)
      → IsWorkload config.workload
      → ((s : CaseShapeConfig)
          → contains cases s ≡ true
          → IsCaseShape s × (config.workload.top_k ≤ s.context_tokens))
      → All IsPrefillCase
          (map (λ (s : CaseShapeConfig). case_of config purpose s.context_tokens s) cases)
  cases_run config purpose [] w each = tt
  cases_run config purpose (x ∷ xs) w each =
      let (shape, fits) = each x (ground (arith, eq_self x)) in
      (
        (shape.0, shape.1, w.some_top_k, fits, w.one_batch, w.is_causal, w.some_heads, w.some_dim),
        cases_run config purpose xs w (λ s m. each s (ground arith)),
      )

  -- The cases of a purpose: one for each of its shapes, in order, and each one that can run.
  abbrev pub Builds : LabConfig F → String → List CaseShapeConfig → Type 0
  Builds config purpose shapes =
      (cases : List PrefillCase) × (build_prefill_cases config purpose ≡ ok cases)
      × (map shape_of cases ≡ shapes)
      × All IsPrefillCase cases

module _ {F : Type 0} (fl : Floats F) (law : TruncatesMinusOne fl) where
  -- From an accepted configuration the cases of all three purposes can be built: no look-up is
  -- missing or ambiguous, there is one case for each configured shape, in order, and each has
  -- 1 <= Q <= N, 1 <= K <= N, one batch, at least one head and dimension, and a causal range. The
  -- parameter `int` returns -1 on the number that equals -1.
  pub parse_config-build_prefill_cases :
      (raw : Json F) (config : LabConfig F)
      → parse_config fl raw ≡ ok config
      → Builds config "benchmark" config.workload.benchmark_cases
        × Builds config "correctness" config.workload.correctness_cases
        × Builds config "profile" config.profiling.target_cases
  unfolding build_prefill_cases benchmark_cases correctness_cases profile_cases
  parse_config-build_prefill_cases raw config h =
      let is = parse_config-IsConfig fl law raw config h in
      let w = is.workload_ok in
      let b = config.workload.benchmark_cases in
      let c = config.workload.correctness_cases in
      let p = config.profiling.target_cases in
      let k = config.workload.top_k in
      let benchmark : (s : CaseShapeConfig)
          → contains b s ≡ true
          → IsCaseShape s × (k ≤ s.context_tokens) =
        λ s m. (
          All-contains IsCaseShape b s w.benchmark_matrix.case_shapes m,
          All-contains (λ s. k ≤ s.context_tokens) b s (All-contexts k b w.benchmark_fits) m,
        ) in
      let correctness : (s : CaseShapeConfig)
          → contains c s ≡ true
          → IsCaseShape s × (k ≤ s.context_tokens) =
        λ s m. (
          All-contains IsCaseShape c s w.correctness_matrix.case_shapes m,
          All-contains (λ s. k ≤ s.context_tokens) c s (All-contexts k c w.correctness_fits) m,
        ) in
      (
        (
          _,
          make_all_total config "benchmark" b refl w.benchmark_matrix.unique b (λ s m. m),
          shapes_made config "benchmark" b,
          cases_run config "benchmark" b w benchmark,
        ),
        (
          _,
          make_all_total config "correctness" c refl w.correctness_matrix.unique c (λ s m. m),
          shapes_made config "correctness" c,
          cases_run config "correctness" c w correctness,
        ),
        (
          _,
          make_all_total config "profile" p refl is.targets_ok.target_once p (λ s m. m),
          shapes_made config "profile" p,
          cases_run config "profile" p w (λ s m. benchmark s (is.targets_ok.benchmarked s m)),
        ),
      )
