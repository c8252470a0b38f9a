-- ===== src/Config/Workload.antt =====
-- config.py, `parse_config`: the workload.
use fused_index_top_k.Base.{
  ℕ, min, String, Bool, false, not, List, [], ◌∷◌, ◌++◌, map, ℤ, ltb, leb, eqb, if◌then◌else◌, ◌==◌,
  string_eq, nat_eq, diff, Dict, keys, put, Result, ok, err, ◌>>=◌, ◌>>◌, raise_if, is_minus_one,
}
use fused_index_top_k.Config.{
  Json, integer, real, text, Floats, ConfigError, lengths_below_query, bad_batch_size, not_causal,
  broken_contract, bad_score_dtype, bad_output_dtype, top_k_too_large, CaseShapeConfig,
  WorkloadConfig, shape_eq,
}
use fused_index_top_k.Config.Read.{
  mapping, at, read_integer, read_boolean, ordered_unique_ints, ordered_unique_case_shapes,
  string_at, integer_at,
}

-- An entry of `explicit_contract`: a text, or the number -1.
pub data Expected : Type 0 where
  exactly : String → Expected
  minus_one : Expected

abbrev pub explicit_contract : Dict Expected
explicit_contract =
    ("q_dtype", exactly "float8_e4m3fn")
    ∷ ("kv_dtype", exactly "float8_e4m3fn")
    ∷ ("kv_scale_dtype", exactly "float32")
    ∷ ("weight_dtype", exactly "float32")
    ∷ ("range_dtype", exactly "int32")
    ∷ ("selection", exactly "exact")
    ∷ ("output_order", exactly "unordered")
    ∷ ("padding_index", minus_one)
    ∷ ("tie_policy", exactly "exact_score_threshold")
    ∷ ("causal_range", exactly "[0,N-Q+q+1)")
    ∷ []

abbrev pub workload_v1_fields : List String
workload_v1_fields =
    "batch_size" ∷ "query_tokens" ∷ "context_lengths" ∷ "correctness_lengths" ∷ "top_k"
    ∷ "indexer_heads" ∷ "head_dim" ∷ "causal" ∷ "score_dtype" ∷ "output_dtype" ∷ []

abbrev pub workload_v2_fields : List String
workload_v2_fields = workload_v1_fields ++ keys explicit_contract

abbrev pub workload_v3_fields : List String
workload_v3_fields =
    diff workload_v2_fields ("query_tokens" ∷ "context_lengths" ∷ "correctness_lengths" ∷ [])
    ++ "benchmark_cases" ∷ "correctness_cases" ∷ []

-- `min(...)`, with the value for an empty list
abbrev pub min_of : List ℕ → ℕ
min_of [] = 0
min_of (x ∷ []) = x
min_of (x ∷ y ∷ xs) = min x (min_of (y ∷ xs))

abbrev pub shapes : ℕ → List ℕ → List CaseShapeConfig
shapes query lengths = map (λ n. record { query_tokens = query; context_tokens = n }) lengths

abbrev pub contexts : List CaseShapeConfig → List ℕ
contexts cases = map (λ (shape : CaseShapeConfig). shape.context_tokens) cases

abbrev pub workload_fields : ℕ → List String
workload_fields version =
    if leb 3 version
    then workload_v3_fields
    else if eqb version 2
    then workload_v2_fields
    else workload_v1_fields

abbrev pub TwoMatrices : Type 0
TwoMatrices = List CaseShapeConfig × List CaseShapeConfig

module _ {F : Type 0} where
  abbrev pub json_of : Expected → Json F
  json_of (exactly e) = text e
  json_of minus_one = integer (ℤ.negsuc 0)

  -- `{**workload_raw, **explicit_contract}`
  unfoldable pub with_contract : Dict (Json F) → Dict Expected → Dict (Json F)
  with_contract raw [] = raw
  with_contract raw ((key, expected) ∷ rest) = with_contract (put raw key (json_of expected)) rest

  -- `benchmark_cases` and `correctness_cases`
  unfoldable pub read_matrices : Dict (Json F) → Result ConfigError TwoMatrices
  read_matrices raw = do
    benchmark_raw ← at raw "benchmark_cases"
    benchmark ← ordered_unique_case_shapes benchmark_raw
    correctness_raw ← at raw "correctness_cases"
    correctness ← ordered_unique_case_shapes correctness_raw
    ok (benchmark, correctness)

  unfoldable pub read_lengths : Dict (Json F) → Result ConfigError TwoMatrices
  read_lengths raw = do
    context_raw ← at raw "context_lengths"
    context_lengths ← ordered_unique_ints context_raw
    correctness_raw ← at raw "correctness_lengths"
    correctness_lengths ← ordered_unique_ints correctness_raw
    query_raw ← at raw "query_tokens"
    query ← read_integer 1 query_raw
    raise_if (ltb (min_of (context_lengths ++ correctness_lengths)) query) lengths_below_query
    ok (shapes query context_lengths, shapes query correctness_lengths)

  unfoldable pub read_cases : ℕ → Dict (Json F) → Result ConfigError TwoMatrices
  read_cases version raw = if leb 3 version then read_matrices raw else read_lengths raw

module _ {F : Type 0} (fl : Floats F) where
  -- `value == expected`
  abbrev pub is_expected : Json F → Expected → Bool
  is_expected (text s) (exactly e) = s == e
  is_expected (integer n) minus_one = is_minus_one n
  is_expected (real x) minus_one = fl.is_minus_one x
  is_expected value expected = false

  unfoldable pub check_contract : Dict (Json F) → Dict Expected → Result ConfigError (Unit {0})
  check_contract raw [] = ok tt
  check_contract raw ((key, expected) ∷ rest) = do
    value ← at raw key
    raise_if (not (is_expected value expected)) broken_contract
    check_contract raw rest

  unfoldable pub resolve_contract : ℕ → Dict (Json F) → Result ConfigError (Dict (Json F))
  resolve_contract version raw =
      if leb 2 version
      then check_contract raw explicit_contract >> ok raw
      else ok (with_contract raw explicit_contract)

  -- `int(value)`, for a number
  unfoldable pub to_int : Json F → Result ConfigError ℤ
  to_int (integer n) = ok n
  to_int (real x) = ok (fl.truncate x)
  to_int other = err broken_contract

  -- `WorkloadConfig(...)`, whose arguments read the rest of the mapping
  unfoldable pub finish_workload :
      TwoMatrices
      → ℕ
      → Bool
      → String
      → String
      → ℕ
      → Dict (Json F)
      → Result ConfigError WorkloadConfig
  finish_workload cases batch_size causal score_dtype output_dtype top_k resolved = do
    indexer_heads ← integer_at 1 resolved "indexer_heads"
    head_dim ← integer_at 1 resolved "head_dim"
    q_dtype ← string_at resolved "q_dtype"
    kv_dtype ← string_at resolved "kv_dtype"
    kv_scale_dtype ← string_at resolved "kv_scale_dtype"
    weight_dtype ← string_at resolved "weight_dtype"
    range_dtype ← string_at resolved "range_dtype"
    selection ← string_at resolved "selection"
    output_order ← string_at resolved "output_order"
    padding_raw ← at resolved "padding_index"
    padding_index ← to_int padding_raw
    tie_policy ← string_at resolved "tie_policy"
    causal_range ← string_at resolved "causal_range"
    ok (record {
      batch_size = batch_size;
      benchmark_cases = cases.0;
      correctness_cases = cases.1;
      top_k = top_k;
      indexer_heads = indexer_heads;
      head_dim = head_dim;
      causal = causal;
      q_dtype = q_dtype;
      kv_dtype = kv_dtype;
      kv_scale_dtype = kv_scale_dtype;
      weight_dtype = weight_dtype;
      range_dtype = range_dtype;
      score_dtype = score_dtype;
      output_dtype = output_dtype;
      selection = selection;
      output_order = output_order;
      padding_index = padding_index;
      tie_policy = tie_policy;
      causal_range = causal_range;
    })

  unfoldable pub parse_workload : ℕ → Json F → Result ConfigError WorkloadConfig
  parse_workload version value = do
    raw ← mapping value (workload_fields version)
    cases ← read_cases version raw
    batch_size ← integer_at 1 raw "batch_size"
    raise_if (not (eqb batch_size 1)) bad_batch_size
    causal_raw ← at raw "causal"
    causal ← read_boolean causal_raw
    raise_if (not causal) not_causal
    resolved ← resolve_contract version raw
    score_dtype ← string_at resolved "score_dtype"
    output_dtype ← string_at resolved "output_dtype"
    raise_if (not (score_dtype == "float32")) bad_score_dtype
    raise_if (not (output_dtype == "int32")) bad_output_dtype
    top_k ← integer_at 1 resolved "top_k"
    raise_if (ltb (min_of (contexts (cases.0 ++ cases.1))) top_k) top_k_too_large
    finish_workload cases batch_size causal score_dtype output_dtype top_k resolved
