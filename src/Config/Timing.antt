-- ===== src/Config/Timing.antt =====
-- config.py, `parse_config`: the timing.
use fused_index_top_k.Base.{
  ℕ, ◌%◌, String, Bool, false, not, ◌&&◌, ◌||◌, List, [], ◌∷◌, ◌++◌, leb, eqb, if◌then◌else◌, ◌==◌,
  string_eq, nat_eq, length, anyb, subset, Dict, keys, Result, ok, err, ◌>>=◌, ◌>>◌, raise_if,
}
use fused_index_top_k.Config.{
  Json, object, fields_of, Floats, ConfigError, not_an_object, bad_method, bad_flush_bytes,
  no_orders, wrong_order_count, bad_order, TimingConfig, shape_eq,
}
use fused_index_top_k.Config.Read.{
  collect, mapping, at, read_number, read_string, nonempty_list, string_at, integer_at,
}

abbrev pub legacy_timing_fields : List String
legacy_timing_fields =
    "warmup_iterations" ∷ "clean_trials" ∷ "attribution_trials" ∷ "cache_scrub_bytes"
    ∷ "cooldown_seconds" ∷ []

abbrev pub campaign_timing_fields : List String
campaign_timing_fields = legacy_timing_fields ++ "campaign_repetitions" ∷ "campaign_orders" ∷ []

abbrev pub kineto_timing_fields : List String
kineto_timing_fields =
    "method" ∷ "warmup_iterations" ∷ "event_trials" ∷ "kineto_trials" ∷ "l2_flush_bytes"
    ∷ "cooldown_seconds" ∷ "campaign_repetitions" ∷ "campaign_orders" ∷ []

-- `set(xs) == set(ys)`
abbrev pub same_set : List String → List String → Bool
same_set xs ys = subset xs ys && subset ys xs

-- What the three branches determine, and the checked mapping.
pub record TimingBranch (F : Type 0) : Type 0 where
  pub timing_raw : Dict (Json F)
  pub branch_method : String
  pub branch_event_trials : ℕ
  pub branch_kineto_trials : ℕ
  pub branch_flush_bytes : ℕ
  pub branch_repetitions : ℕ

abbrev pub is_order : String → Bool
is_order order = order == "ABBA" || order == "BAAB"

module _ {F : Type 0} where
  unfoldable pub kineto_branch : Json F → Result ConfigError (TimingBranch F)
  kineto_branch value = do
    raw ← mapping value kineto_timing_fields
    method ← string_at raw "method"
    raise_if (not (method == "deepgemm_kineto_cupti_v1")) bad_method
    event_trials ← integer_at 1 raw "event_trials"
    kineto_trials ← integer_at 1 raw "kineto_trials"
    flush_bytes ← integer_at 4 raw "l2_flush_bytes"
    raise_if (not (eqb (flush_bytes % 4) 0)) bad_flush_bytes
    repetitions ← integer_at 3 raw "campaign_repetitions"
    ok (record {
      timing_raw = raw;
      branch_method = method;
      branch_event_trials = event_trials;
      branch_kineto_trials = kineto_trials;
      branch_flush_bytes = flush_bytes;
      branch_repetitions = repetitions;
    })

  unfoldable pub legacy_branch : Json F → Result ConfigError (TimingBranch F)
  legacy_branch value = do
    raw ← mapping value legacy_timing_fields
    event_trials ← integer_at 1 raw "clean_trials"
    flush_bytes ← integer_at 0 raw "cache_scrub_bytes"
    ok (record {
      timing_raw = raw;
      branch_method = "legacy_cuda_event_v1";
      branch_event_trials = event_trials;
      branch_kineto_trials = 0;
      branch_flush_bytes = flush_bytes;
      branch_repetitions = 1;
    })

  unfoldable pub campaign_branch : Json F → Result ConfigError (TimingBranch F)
  campaign_branch value = do
    raw ← mapping value campaign_timing_fields
    event_trials ← integer_at 1 raw "clean_trials"
    flush_bytes ← integer_at 0 raw "cache_scrub_bytes"
    repetitions ← integer_at 3 raw "campaign_repetitions"
    ok (record {
      timing_raw = raw;
      branch_method = "legacy_cuda_event_v1";
      branch_event_trials = event_trials;
      branch_kineto_trials = 0;
      branch_flush_bytes = flush_bytes;
      branch_repetitions = repetitions;
    })

  unfoldable pub choose_branch : ℕ → Json F → List String → Result ConfigError (TimingBranch F)
  choose_branch version value fields =
      if leb 4 version
      then kineto_branch value
      else if same_set fields legacy_timing_fields
      then legacy_branch value
      else campaign_branch value

  unfoldable pub read_orders : TimingBranch F → Result ConfigError (List String)
  read_orders branch = do
    raw_orders ← at branch.timing_raw "campaign_orders"
    entries ← nonempty_list raw_orders no_orders
    orders ← collect (read_string false) entries
    raise_if (not (eqb (length orders) branch.branch_repetitions)) wrong_order_count
    raise_if (anyb (λ order. not (is_order order)) orders) bad_order
    ok orders

  unfoldable pub campaign_orders_of :
      ℕ → List String → TimingBranch F → Result ConfigError (List String)
  campaign_orders_of version fields branch =
      if leb 4 version || not (same_set fields legacy_timing_fields)
      then read_orders branch
      else ok ("ABBA" ∷ [])

module _ {F : Type 0} (fl : Floats F) where
  unfoldable pub parse_timing : ℕ → Json F → Result ConfigError (TimingConfig F)
  parse_timing version (object fs) = do
    let fields = keys (fields_of fs)
    branch ← choose_branch version (object fs) fields
    orders ← campaign_orders_of version fields branch
    warmup ← integer_at 0 branch.timing_raw "warmup_iterations"
    cooldown_raw ← at branch.timing_raw "cooldown_seconds"
    cooldown ← read_number fl cooldown_raw
    ok (record {
      method = branch.branch_method;
      warmup_iterations = warmup;
      event_trials = branch.branch_event_trials;
      kineto_trials = branch.branch_kineto_trials;
      l2_flush_bytes = branch.branch_flush_bytes;
      cooldown_seconds = cooldown;
      campaign_repetitions = branch.branch_repetitions;
      campaign_orders = orders;
    })
  parse_timing version other = err not_an_object
