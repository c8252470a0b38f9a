-- ===== src/Samples/Configs.antt =====
-- A configuration of the fourth schema; a floating-point number is a natural number.
use fused_index_top_k.Base.{
  ℕ, ℤ, ◌≡◌, refl, true, false, some, List, [], ◌∷◌, ok, Dict, sorted, insert_sorted, frozenset,
  arith,
}
use fused_index_top_k.Config.{
  Json, integer, boolean, text, array, object, to_items, to_fields, Floats, LabConfig,
  CaseShapeConfig,
}
use fused_index_top_k.Config.Read.{
  mapping, at, read_integer, read_number, read_boolean, read_string, nonempty_list, read_case_shape,
  ordered_unique_case_shapes, unique_strings, read_variant, load_each, load_variants, safe_name,
  hex_commit, good_factory,
}
use fused_index_top_k.Config.Workload.{
  check_contract, resolve_contract, to_int, read_matrices, read_cases, finish_workload,
  parse_workload,
}
use fused_index_top_k.Config.Timing.{
  kineto_branch, choose_branch, read_orders, campaign_orders_of, parse_timing,
}
use fused_index_top_k.Config.Profiling.{
  case_branch, profiling_branch, union_sorted, parse_profiling,
}
use fused_index_top_k.Config.Parse.{
  with_reference, parse_target, parse_sources, named_variant, finish_config, parse_root,
  parse_config,
}
use fused_index_top_k.Config.Contract.{TruncatesMinusOne}
use fused_index_top_k.Config.Accepted.{IsConfig, parse_config-IsConfig}
use fused_index_top_k.Config.Matrix.{Builds, parse_config-build_prefill_cases}

abbrev pub floats : Floats ℕ
floats = record {
  float_of = λ n. some 0;
  is_finite = λ x. true;
  is_negative = λ x. false;
  is_minus_one = λ x. false;
  truncate = λ x. ℤ.pos x;
}

pub truncates : TruncatesMinusOne floats
truncates x h = ground arith

abbrev number : ℕ → Json ℕ
number n = integer (ℤ.pos n)

abbrev entries : Dict (Json ℕ) → Json ℕ
entries d = object (to_fields d)

abbrev list_of : List (Json ℕ) → Json ℕ
list_of xs = array (to_items xs)

abbrev shape : ℕ → ℕ → Json ℕ
shape q n = entries (("query_tokens", number q) ∷ ("context_tokens", number n) ∷ [])

abbrev workload : Json ℕ
workload = entries (
    ("batch_size", number 1)
    ∷ ("top_k", number 2)
    ∷ ("indexer_heads", number 64)
    ∷ ("head_dim", number 128)
    ∷ ("causal", boolean true)
    ∷ ("score_dtype", text "float32")
    ∷ ("output_dtype", text "int32")
    ∷ ("q_dtype", text "float8_e4m3fn")
    ∷ ("kv_dtype", text "float8_e4m3fn")
    ∷ ("kv_scale_dtype", text "float32")
    ∷ ("weight_dtype", text "float32")
    ∷ ("range_dtype", text "int32")
    ∷ ("selection", text "exact")
    ∷ ("output_order", text "unordered")
    ∷ ("padding_index", integer (ℤ.negsuc 0))
    ∷ ("tie_policy", text "exact_score_threshold")
    ∷ ("causal_range", text "[0,N-Q+q+1)")
    ∷ ("benchmark_cases", list_of (shape 2 3 ∷ shape 2 4 ∷ []))
    ∷ ("correctness_cases", list_of (shape 1 2 ∷ []))
    ∷ [])

abbrev timing : Json ℕ
timing = entries (
    ("method", text "deepgemm_kineto_cupti_v1")
    ∷ ("warmup_iterations", number 2)
    ∷ ("event_trials", number 5)
    ∷ ("kineto_trials", number 5)
    ∷ ("l2_flush_bytes", number 8)
    ∷ ("cooldown_seconds", number 0)
    ∷ ("campaign_repetitions", number 3)
    ∷ ("campaign_orders", list_of (text "ABBA" ∷ text "BAAB" ∷ text "ABBA" ∷ []))
    ∷ [])

abbrev profiling : Json ℕ
profiling = entries (
    ("nsys_cases", list_of (shape 2 4 ∷ []))
    ∷ ("ncu_cases", list_of (shape 2 3 ∷ []))
    ∷ ("captured_iterations", number 1)
    ∷ ("ncu_metrics", list_of (text "m" ∷ []))
    ∷ ("ncu_sections", list_of (text "s" ∷ []))
    ∷ [])

abbrev target : Json ℕ
target = entries (
    ("gpu_name", text "GPU")
    ∷ ("compute_capability", list_of (number 9 ∷ number 0 ∷ []))
    ∷ ("multiprocessor_count", number 132)
    ∷ ("total_memory_bytes", number 80)
    ∷ ("require_single_visible_gpu", boolean true)
    ∷ [])

abbrev sources : Json ℕ
sources = entries (
    ("deep_gemm_commit", text "0123456789abcdef0123456789abcdef01234567")
    ∷ ("torch_version", text "2.8")
    ∷ [])

abbrev variants : Json ℕ
variants = entries (
    ("exact", entries (("factory", text "m:F") ∷ ("options", entries []) ∷ []))
    ∷ ("fused", entries (("factory", text "m:G") ∷ ("options", entries []) ∷ []))
    ∷ [])

-- Without `exact_reference_variant`, as older configurations are written.
abbrev pub raw : Json ℕ
raw = entries (
    ("schema_version", number 4)
    ∷ ("name", text "small")
    ∷ ("seed", number 7)
    ∷ ("target", target)
    ∷ ("sources", sources)
    ∷ ("workload", workload)
    ∷ ("timing", timing)
    ∷ ("profiling", profiling)
    ∷ ("baseline_variant", text "exact")
    ∷ ("variants", variants)
    ∷ [])

abbrev cases : ℕ → ℕ → CaseShapeConfig
cases q n = record { query_tokens = q; context_tokens = n }

abbrev pub config : LabConfig ℕ
config = record {
  schema_version = 4;
  name = "small";
  seed = 7;
  target = record {
    gpu_name = "GPU";
    compute_capability = (9, 0);
    multiprocessor_count = 132;
    total_memory_bytes = 80;
    require_single_visible_gpu = true;
  };
  sources = record {
    deep_gemm_commit = "0123456789abcdef0123456789abcdef01234567";
    torch_version = "2.8";
  };
  workload = record {
    batch_size = 1;
    benchmark_cases = cases 2 3 ∷ cases 2 4 ∷ [];
    correctness_cases = cases 1 2 ∷ [];
    top_k = 2;
    indexer_heads = 64;
    head_dim = 128;
    causal = true;
    q_dtype = "float8_e4m3fn";
    kv_dtype = "float8_e4m3fn";
    kv_scale_dtype = "float32";
    weight_dtype = "float32";
    range_dtype = "int32";
    score_dtype = "float32";
    output_dtype = "int32";
    selection = "exact";
    output_order = "unordered";
    padding_index = ℤ.negsuc 0;
    tie_policy = "exact_score_threshold";
    causal_range = "[0,N-Q+q+1)";
  };
  timing = record {
    method = "deepgemm_kineto_cupti_v1";
    warmup_iterations = 2;
    event_trials = 5;
    kineto_trials = 5;
    l2_flush_bytes = 8;
    cooldown_seconds = 0;
    campaign_repetitions = 3;
    campaign_orders = "ABBA" ∷ "BAAB" ∷ "ABBA" ∷ [];
  };
  profiling = record {
    target_cases = cases 2 3 ∷ cases 2 4 ∷ [];
    nsys_cases = cases 2 4 ∷ [];
    ncu_cases = cases 2 3 ∷ [];
    captured_iterations = 1;
    ncu_metrics = "m" ∷ [];
    ncu_sections = "s" ∷ [];
  };
  exact_reference_variant = "exact";
  baseline_variant = "exact";
  variants =
      ("exact", record { factory = "m:F"; options = [] })
      ∷ ("fused", record { factory = "m:G"; options = [] })
      ∷ [];
}

pub parsed : parse_config floats raw ≡ ok config
unfolding parse_config parse_root finish_config named_variant parse_sources parse_target
    with_reference parse_profiling union_sorted profiling_branch case_branch parse_timing
    campaign_orders_of read_orders choose_branch kineto_branch parse_workload finish_workload
    read_cases read_matrices to_int resolve_contract check_contract mapping at read_integer
    read_number read_boolean read_string nonempty_list read_case_shape ordered_unique_case_shapes
    unique_strings read_variant load_each load_variants safe_name hex_commit good_factory sorted
    insert_sorted frozenset
parsed = refl

parse_config-IsConfig_example : IsConfig floats config
parse_config-IsConfig_example = parse_config-IsConfig floats truncates raw config parsed

parse_config-build_prefill_cases_example :
    Builds config "benchmark" config.workload.benchmark_cases
    × Builds config "correctness" config.workload.correctness_cases
    × Builds config "profile" config.profiling.target_cases
parse_config-build_prefill_cases_example =
    parse_config-build_prefill_cases floats truncates raw config parsed
