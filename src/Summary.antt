-- ===== src/Summary.antt =====
-- src/fused_index_topk/summary.py: the rules that a measurement row keeps.
pub mod Rules
use fused_index_top_k.Config.Read.{collect}
use fused_index_top_k.Base.{
  ℕ, zero, suc, ◌+◌, ◌-◌, ◌*◌, ◌%◌, ◌≤◌, ◌<◌, min, max, ◌≡◌, refl, sym, ap, ap₂, subst, ◌∙◌, ◌≢◌,
  ◌↔◌, ◌⊎◌, inl, inr, String, Bool, true, false, not, ◌&&◌, ◌||◌, Option, none, some, List, [], ◌∷◌,
  ◌++◌, map, ℤ, ltb, leb, eqb, if◌then◌else◌, Eq, ◌==◌, string_eq, nat_eq, length, filterb, anyb,
  Member, contains, subset, diff, frozenset, IsUnique, Dict, keys, get, put, Result, ok, err, ◌>>=◌,
  ◌>>◌, raise_if, map_err, >>=-eq-ok, raise_if-eq-ok, returned, countb, sorted, insert_sorted,
  arith, eq_iff, Bool-cases, Option-cases, eq_self, contains-sorted, contains-frozenset,
  frozenset-IsUnique, sorted-IsUnique, frozenset_of_unique, is_minus_one, get_of_key, key_of_get,
  get-put, contains-put, subset-contains, contains-append, contains-filterb, length-append,
  length-frozenset-IsUnique,
}
use fused_index_top_k.Config.{
  Json, null, boolean, integer, real, text, array, object, Items, no_items, item, Fields, no_fields,
  field, items_of, fields_of, to_items, to_fields, Floats, ConfigError, not_an_object,
  unknown_fields, missing_fields, not_an_integer, not_a_number, not_a_boolean, empty_text,
  unsafe_text, not_a_list, not_increasing, context_below_query, not_ordered, repeated_text,
  no_variants, bad_factory, options_not_an_object, bad_schema_version, bad_capability, bad_commit,
  lengths_below_query, bad_batch_size, not_causal, broken_contract, bad_score_dtype,
  bad_output_dtype, top_k_too_large, bad_method, bad_flush_bytes, no_orders, wrong_order_count,
  bad_order, not_benchmarked, unknown_reference, unknown_baseline, bad_purpose, not_configured,
  ambiguous, unknown_variant, bad_mode, key_error, overflow_error, TargetConfig, SourceConfig,
  CaseShapeConfig, WorkloadConfig, TimingConfig, ProfilingConfig, VariantConfig, LabConfig,
  shape_eqb, shape_eq, shape_leb, shape_eqb_iff,
}
use fused_index_top_k.Graph.{is_empty}

pub data RowError : Type 0 where
  missing_columns bad_integer bad_number bad_boolean bad_latency negative_trial : RowError
  unknown_pass not_positive wrong_row missing_key : RowError

-- Python's conversions of a decoded value: `int(v)` and `float(v)` (`none` where they raise), `str(v)`,
-- `str(v).strip().lower()`, and the tests on floating-point numbers.
pub record Coercions (F : Type 0) : Type 0 where
  pub int_of : Json F → Option ℤ
  pub float_of : Json F → Option F
  pub str_of : Json F → String
  pub word_of : Json F → String
  pub is_finite : F → Bool
  pub is_negative : F → Bool
  pub is_positive : F → Bool
  pub is_zero : F → Bool
  pub is_one : F → Bool

abbrev pub measurement_columns : List String
measurement_columns =
    "variant_id" ∷ "case_id" ∷ "query_tokens" ∷ "context_tokens" ∷ "top_k" ∷ "pass" ∷ "trial_id"
    ∷ "scope_id" ∷ "stage_id" ∷ "semantic_ops" ∷ "timing_source" ∷ "latency_ms" ∷ "derived" ∷ []

-- The expected value of a column: a text, or False.
pub data Required : Type 0 where
  is_word : String → Required
  is_false : Required

abbrev pub total_rule : String → String → Dict Required
total_rule scope source =
    ("scope_id", is_word scope)
    ∷ ("stage_id", is_word scope)
    ∷ ("timing_source", is_word source)
    ∷ ("derived", is_false)
    ∷ []

abbrev pub stage_rule : String → Dict Required
stage_rule source =
    ("scope_id", is_word "stage") ∷ ("timing_source", is_word source) ∷ ("derived", is_false) ∷ []

abbrev pub rules : Dict (Dict Required)
rules =
    ("formal_kernel_sum", total_rule "operator_total" "kineto_cupti")
    ∷ ("kineto_activity_sum", total_rule "operator_total" "kineto_cupti")
    ∷ ("kineto_device_span", total_rule "operator_total" "kineto_cupti")
    ∷ ("cuda_event_total", total_rule "operator_total" "direct_cuda_event")
    ∷ ("kineto_stage_kernel_sum", stage_rule "kineto_cupti")
    ∷ ("clean_total", total_rule "discovery_total" "direct_cuda_event")
    ∷ ("attribution", stage_rule "instrumented_cuda_event")
    ∷ []

module _ {F : Type 0} where
  -- `row[key]`
  unfoldable pub column : Dict (Json F) → String → Result RowError (Json F)
  column row key = elim (get row key) [ none ↦ err missing_key | some v ↦ ok v ]

  -- `result[key] == value`
  abbrev pub holds : Option (Json F) → Required → Bool
  holds (some (text s)) (is_word w) = s == w
  holds (some (boolean b)) is_false = not b
  holds other required = false

  -- No mismatch between a row and a rule.
  abbrev pub keeps_rule : Dict (Json F) → Dict Required → Bool
  keeps_rule row [] = true
  keeps_rule row ((key, required) ∷ rest) =
      if holds (get row key) required then keeps_rule row rest else false

module _ {F : Type 0} (c : Coercions F) where
  abbrev pub word_to_bool : String → Result RowError Bool
  word_to_bool word =
      if contains ("true" ∷ "1" ∷ "yes" ∷ []) word
      then ok true
      else if contains ("false" ∷ "0" ∷ "no" ∷ "" ∷ []) word
      then ok false
      else err bad_boolean

  -- `_as_bool`
  unfoldable pub as_bool : Json F → Result RowError Bool
  as_bool (boolean b) = ok b
  as_bool (integer (ℤ.pos zero)) = ok false
  as_bool (integer (ℤ.pos (suc zero))) = ok true
  as_bool (real x) =
      if c.is_zero x
      then ok false
      else if c.is_one x
      then ok true
      else word_to_bool (c.word_of (real x))
  as_bool value = word_to_bool (c.word_of value)

  unfoldable pub to_integer : Json F → Result RowError ℤ
  to_integer value = elim (c.int_of value) [ none ↦ err bad_integer | some n ↦ ok n ]

  unfoldable pub to_number : Json F → Result RowError F
  to_number value = elim (c.float_of value) [ none ↦ err bad_number | some x ↦ ok x ]

  -- `result[key] = int(result[key])`
  unfoldable pub coerce_integer : Dict (Json F) → String → Result RowError (Dict (Json F))
  coerce_integer row key = do
    value ← column row key
    n ← to_integer value
    ok (put row key (integer n))

  -- The value of a column that `int` has produced.
  abbrev pub coerced : Json F → Result RowError ℤ
  coerced (integer n) = ok n
  coerced value = err bad_integer

  abbrev pub is_negative_integer : ℤ → Bool
  is_negative_integer (ℤ.pos n) = false
  is_negative_integer (ℤ.negsuc n) = true

  -- The checks behind the conversions.
  unfoldable pub check_rule :
      Dict (Json F) → F → Option (Dict Required) → Result RowError (Dict (Json F))
  check_rule row latency none = err unknown_pass
  check_rule row latency (some rule) = do
    raise_if (not (c.is_positive latency)) not_positive
    raise_if (not (keeps_rule row rule)) wrong_row
    ok row

  unfoldable pub finish_row : Dict (Json F) → Result RowError (Dict (Json F))
  finish_row row = do
    latency_raw ← column row "latency_ms"
    latency ← to_number latency_raw
    derived_raw ← column row "derived"
    derived ← as_bool derived_raw
    let result = put (put row "latency_ms" (real latency)) "derived" (boolean derived)
    raise_if (not (c.is_finite latency) || c.is_negative latency) bad_latency
    trial_raw ← column result "trial_id"
    trial ← coerced trial_raw
    raise_if (is_negative_integer trial) negative_trial
    pass ← column result "pass"
    check_rule result latency (get rules (c.str_of pass))

  unfoldable pub normalize_measurement : Dict (Json F) → Result RowError (Dict (Json F))
  normalize_measurement row = do
    raise_if (not (is_empty (diff measurement_columns (keys row)))) missing_columns
    first ← coerce_integer row "query_tokens"
    second ← coerce_integer first "context_tokens"
    third ← coerce_integer second "top_k"
    fourth ← coerce_integer third "trial_id"
    finish_row fourth

  unfoldable pub validate_measurements :
      List (Dict (Json F)) → Result RowError (List (Dict (Json F)))
  validate_measurements rows = collect normalize_measurement rows
