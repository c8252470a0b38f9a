-- ===== src/Campaign.antt =====
-- src/fused_index_topk/campaign.py: the frozen order of a campaign's runs, and the decision on the
-- measured cases. A measured number is of any type with an order (Measures).
pub mod Balance
use Prim.Native.String.{◌++◌}
use fused_index_top_k.Base.{
  ℕ, zero, suc, ◌+◌, ◌-◌, ◌*◌, ◌%◌, ◌≤◌, ◌<◌, min, max, ◌≡◌, refl, sym, ap, ap₂, subst, ◌∙◌, ◌≢◌,
  ◌↔◌, ◌⊎◌, inl, inr, String, Bool, true, false, not, ◌&&◌, ◌||◌, Option, none, some, List, [], ◌∷◌,
  map, ℤ, ltb, leb, eqb, if◌then◌else◌, Eq, ◌==◌, string_eq, nat_eq, length, filterb, anyb, Member,
  contains, subset, diff, frozenset, IsUnique, Dict, keys, get, put, Result, ok, err, ◌>>=◌, ◌>>◌,
  raise_if, map_err, >>=-eq-ok, raise_if-eq-ok, returned, countb, sorted, insert_sorted, arith,
  eq_iff, Bool-cases, Option-cases, eq_self, contains-sorted, contains-frozenset,
  frozenset-IsUnique, sorted-IsUnique, frozenset_of_unique, is_minus_one, get_of_key, key_of_get,
  get-put, contains-put, subset-contains, contains-append, contains-filterb, length-append,
  length-frozenset-IsUnique,
}
use fused_index_top_k.Config.{
  Json, null, boolean, integer, real, text, array, object, Items, no_items, item, Fields, no_fields,
  field, items_of, fields_of, to_items, to_fields, Floats, ConfigError, not_an_object,
  unknown_fields, missing_fields, not_an_integer, not_a_number, not_a_boolean, empty_text,
  unsafe_text, not_a_list, not_increasing, context_below_query, not_ordered, repeated_text,
  no_variants, bad_factory, options_not_an_object, bad_schema_version, bad_capability, bad_commit,
  lengths_below_query, bad_batch_size, not_causal, broken_contract, bad_score_dtype,
  bad_output_dtype, top_k_too_large, bad_method, bad_flush_bytes, no_orders, wrong_order_count,
  bad_order, not_benchmarked, unknown_reference, unknown_baseline, bad_purpose, not_configured,
  ambiguous, unknown_variant, bad_mode, key_error, overflow_error, TargetConfig, SourceConfig,
  CaseShapeConfig, WorkloadConfig, TimingConfig, ProfilingConfig, VariantConfig, LabConfig,
  shape_eqb, shape_eq, shape_leb, shape_eqb_iff,
}
use fused_index_top_k.Config.Cases.{decimal, variant_factory}
use fused_index_top_k.Config.Read.{is_letter, is_digit, all_name_chars}
use fused_index_top_k.Config.Timing.{is_order}
use fused_index_top_k.Graph.Validate.{codes}

pub data CampaignError : Type 0 where
  unsafe_run_id candidate_is_baseline too_few_campaigns unsupported_order : CampaignError
  config_error : ConfigError → CampaignError

-- `_SAFE_ID.fullmatch`
abbrev pub safe_id_codes : List ℕ → Bool
safe_id_codes [] = false
safe_id_codes (c ∷ cs) = (is_letter c || is_digit c) && all_name_chars cs && leb (length cs) 127

-- One run of the plan; its artifact's path is left out.
pub record Run : Type 0 where
  pub campaign : ℕ
  pub position : ℕ
  pub order : String
  pub arm : ℕ
  pub variant : String
  pub run_id : String

-- `arm.lower()`, for the letters of the two orders
abbrev pub arm_text : ℕ → String
arm_text arm = if eqb arm b'A' then "a" else "b"

-- `f"{n:02d}"`
abbrev pub decimal02 : ℕ → String
decimal02 n = if ltb n 10 then "0" ++ decimal n else decimal n

unfoldable pub slot_name : ℕ → ℕ → ℕ → String
slot_name campaign position arm =
    "c" ++ decimal02 campaign ++ "-p" ++ decimal position ++ "-" ++ arm_text arm

abbrev pub plan_run : String → String → String → ℕ → String → ℕ → ℕ → Run
plan_run run_id baseline candidate campaign order position arm = record {
  campaign = campaign;
  position = position;
  order = order;
  arm = arm;
  variant = if eqb arm b'A' then baseline else candidate;
  run_id = run_id ++ "-" ++ slot_name campaign position arm;
}

-- The runs of one order, from a position on.
abbrev pub order_runs : String → String → String → ℕ → String → ℕ → List ℕ → List Run
order_runs run_id baseline candidate campaign order position [] = []
order_runs run_id baseline candidate campaign order position (arm ∷ arms) =
    plan_run run_id baseline candidate campaign order position arm
    ∷ order_runs run_id baseline candidate campaign order (suc position) arms

-- The loop over the orders, each with its campaign's number.
unfoldable pub plan_runs :
    String → String → String → ℕ → List String → Result CampaignError (List (List Run))
plan_runs run_id baseline candidate campaign [] = ok []
plan_runs run_id baseline candidate campaign (order ∷ orders) = do
  raise_if (not (is_order order)) unsupported_order
  rest ← plan_runs run_id baseline candidate (suc campaign) orders
  ok (order_runs run_id baseline candidate campaign order 1 (codes order) ∷ rest)

-- The runs of the plan, campaign by campaign.
unfoldable pub build_campaign_plan :
    {F : Type 0} → LabConfig F → String → String → Result CampaignError (List (List Run))
build_campaign_plan config candidate run_id = do
  raise_if (not (safe_id_codes (codes run_id))) unsafe_run_id
  factory ← map_err config_error (variant_factory config candidate)
  raise_if (candidate == config.baseline_variant) candidate_is_baseline
  let orders = config.timing.campaign_orders
  raise_if (ltb config.timing.campaign_repetitions 3 || ltb (length orders) 3) too_few_campaigns
  plan_runs run_id config.baseline_variant candidate 1 orders

-- Measured numbers: an order, one, and the largest of a list (`max`).
pub record Measures (X : Type 0) : Type 0 where
  pub at_most : X → X → Bool
  pub less : X → X → Bool
  pub one : X
  pub largest : List X → X

-- The thresholds of `decision_policy`.
pub record Policy (X : Type 0) : Type 0 where
  pub minimum_trials_per_run : ℕ
  pub maximum_normalized_mad : X
  pub maximum_p90_to_median_ratio : X
  pub improved_minimum_speedup : X
  pub regressed_maximum_speedup : X
  pub maximum_p95_ratio : X

pub record StabilityRecord (X : Type 0) : Type 0 where
  pub count : ℕ
  pub normalized_mad : X
  pub p90_to_median_ratio : X
  pub event_count : ℕ
  pub event_normalized_mad : X
  pub event_p90_to_median_ratio : X

-- A campaign's measurements of one case, as far as the decision reads them.
pub record Block (X : Type 0) : Type 0 where
  pub run_stability : List (StabilityRecord X)
  pub p95_ratio : X
  pub event_p95_ratio : X

pub data Status : Type 0 where
  unstable improved regressed inconclusive : Status

abbrev pub is_unstable : Status → Bool
is_unstable unstable = true
is_unstable other = false

abbrev pub is_improved : Status → Bool
is_improved improved = true
is_improved other = false

abbrev pub is_regressed : Status → Bool
is_regressed regressed = true
is_regressed other = false

-- `all(p(x) for x in xs)`
abbrev pub allb : {A : Type 0} → (A → Bool) → List A → Bool
allb p [] = true
allb p (x ∷ xs) = if p x then allb p xs else false

module _ {X : Type 0} (m : Measures X) (policy : Policy X) where
  abbrev pub stable_run : StabilityRecord X → Bool
  stable_run r =
      leb policy.minimum_trials_per_run r.count
      && m.at_most r.normalized_mad policy.maximum_normalized_mad
      && m.at_most r.p90_to_median_ratio policy.maximum_p90_to_median_ratio
      && leb policy.minimum_trials_per_run r.event_count
      && m.at_most r.event_normalized_mad policy.maximum_normalized_mad
      && m.at_most r.event_p90_to_median_ratio policy.maximum_p90_to_median_ratio

  unfoldable pub within_run_stability : List (StabilityRecord X) → Bool
  within_run_stability records = allb stable_run records

  -- The status of a case: its blocks, the median speedup and the bounds of the interval.
  unfoldable pub case_status : List (Block X) → X → X → X → Status
  case_status blocks median_speedup low high =
      let stable = allb (λ (b : Block X). within_run_stability b.run_stability) blocks in
      let p95 = m.largest (map (λ (b : Block X). b.p95_ratio) blocks) in
      let event_p95 = m.largest (map (λ (b : Block X). b.event_p95_ratio) blocks) in
      if not stable
      then unstable
      else if m.at_most policy.improved_minimum_speedup median_speedup
          && m.less m.one low
          && m.at_most p95 policy.maximum_p95_ratio
          && m.at_most event_p95 policy.maximum_p95_ratio
      then improved
      else if m.at_most median_speedup policy.regressed_maximum_speedup && m.less high m.one
      then regressed
      else inconclusive

unfoldable pub overall_status : List Status → Status
overall_status statuses =
    if anyb is_unstable statuses
    then unstable
    else if not (eqb (length statuses) 0) && allb is_improved statuses
    then improved
    else if anyb is_regressed statuses
    then regressed
    else inconclusive
