-- ===== src/Config/Parse.antt =====
-- config.py, `parse_config`: the root object, the target and the sources.
use fused_index_top_k.Base.{
  ℕ, String, true, not, none, some, List, [], ◌∷◌, ltb, if◌then◌else◌, string_eq, nat_eq, contains,
  Dict, keys, get, put, Result, ok, err, ◌>>=◌, ◌>>◌, raise_if,
}
use fused_index_top_k.Config.{
  Json, array, object, no_items, item, fields_of, to_fields, Floats, ConfigError, not_an_object,
  bad_schema_version, bad_capability, bad_commit, unknown_reference, unknown_baseline, TargetConfig,
  SourceConfig, WorkloadConfig, TimingConfig, ProfilingConfig, VariantConfig, LabConfig, shape_eq,
}
use fused_index_top_k.Config.Read.{
  hex_commit, mapping, at, read_integer, read_boolean, read_string, load_variants, string_at,
  integer_at,
}
use fused_index_top_k.Config.Workload.{parse_workload}
use fused_index_top_k.Config.Timing.{parse_timing}
use fused_index_top_k.Config.Profiling.{parse_profiling}

abbrev pub root_fields : List String
root_fields =
    "schema_version" ∷ "name" ∷ "seed" ∷ "target" ∷ "sources" ∷ "workload" ∷ "timing" ∷ "profiling"
    ∷ "exact_reference_variant" ∷ "baseline_variant" ∷ "variants" ∷ []

abbrev pub target_fields : List String
target_fields =
    "gpu_name" ∷ "compute_capability" ∷ "multiprocessor_count" ∷ "total_memory_bytes"
    ∷ "require_single_visible_gpu" ∷ []

abbrev pub source_fields : List String
source_fields = "deep_gemm_commit" ∷ "torch_version" ∷ []

module _ {F : Type 0} where
  -- Historical configurations have no `exact_reference_variant`.
  unfoldable pub with_reference : Dict (Json F) → Dict (Json F)
  with_reference raw =
      if contains (keys raw) "exact_reference_variant"
      then raw
      else elim (get raw "baseline_variant") [
        | none ↦ raw
        | some baseline ↦ put raw "exact_reference_variant" baseline
      ]

  abbrev pub read_capability : Json F → Result ConfigError (ℕ × ℕ)
  read_capability (array (item major (item minor no_items))) = do
    first ← read_integer 0 major
    second ← read_integer 0 minor
    ok (first, second)
  read_capability other = err bad_capability

  unfoldable pub parse_target : Json F → Result ConfigError TargetConfig
  parse_target value = do
    raw ← mapping value target_fields
    capability_raw ← at raw "compute_capability"
    capability ← read_capability capability_raw
    gpu_name ← string_at raw "gpu_name"
    multiprocessor_count ← integer_at 1 raw "multiprocessor_count"
    total_memory_bytes ← integer_at 1 raw "total_memory_bytes"
    single_raw ← at raw "require_single_visible_gpu"
    single ← read_boolean single_raw
    ok (record {
      gpu_name = gpu_name;
      compute_capability = capability;
      multiprocessor_count = multiprocessor_count;
      total_memory_bytes = total_memory_bytes;
      require_single_visible_gpu = single;
    })

  unfoldable pub parse_sources : Json F → Result ConfigError SourceConfig
  parse_sources value = do
    raw ← mapping value source_fields
    commit ← string_at raw "deep_gemm_commit"
    raise_if (not (hex_commit commit)) bad_commit
    torch_version ← string_at raw "torch_version"
    ok (record { deep_gemm_commit = commit; torch_version = torch_version })

  -- `_string(root[key], safe=True)`
  abbrev pub safe_string_at : Dict (Json F) → String → Result ConfigError String
  safe_string_at raw key = at raw key >>= read_string true

  -- A variant that the configuration names must be configured.
  unfoldable pub named_variant :
      Dict (Json F) → Dict (VariantConfig F) → String → ConfigError → Result ConfigError String
  named_variant root variants key unknown = do
    name ← safe_string_at root key
    raise_if (not (contains (keys variants) name)) unknown
    ok name

  -- `LabConfig(...)`, behind the variants
  unfoldable pub finish_config :
      ℕ
      → TargetConfig
      → SourceConfig
      → WorkloadConfig
      → TimingConfig F
      → ProfilingConfig
      → Dict (Json F)
      → Result ConfigError (LabConfig F)
  finish_config schema_version target sources workload timing profiling root = do
    variants_raw ← at root "variants"
    variants ← load_variants variants_raw
    reference ← named_variant root variants "exact_reference_variant" unknown_reference
    baseline ← named_variant root variants "baseline_variant" unknown_baseline
    name ← safe_string_at root "name"
    seed ← integer_at 0 root "seed"
    ok (record {
      schema_version = schema_version;
      name = name;
      seed = seed;
      target = target;
      sources = sources;
      workload = workload;
      timing = timing;
      profiling = profiling;
      exact_reference_variant = reference;
      baseline_variant = baseline;
      variants = variants;
    })

module _ {F : Type 0} (fl : Floats F) where
  unfoldable pub parse_root : Dict (Json F) → Result ConfigError (LabConfig F)
  parse_root root = do
    schema_version ← integer_at 1 root "schema_version"
    raise_if (ltb 4 schema_version) bad_schema_version
    target_raw ← at root "target"
    target ← parse_target target_raw
    sources_raw ← at root "sources"
    sources ← parse_sources sources_raw
    workload_raw ← at root "workload"
    workload ← parse_workload fl schema_version workload_raw
    timing_raw ← at root "timing"
    timing ← parse_timing fl schema_version timing_raw
    profiling_raw ← at root "profiling"
    profiling ← parse_profiling schema_version workload.benchmark_cases profiling_raw
    finish_config schema_version target sources workload timing profiling root

  unfoldable pub parse_config : Json F → Result ConfigError (LabConfig F)
  parse_config (object fs) = do
    root ← mapping (object (to_fields (with_reference (fields_of fs)))) root_fields
    parse_root root
  parse_config other = err not_an_object
