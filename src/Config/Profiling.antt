-- ===== src/Config/Profiling.antt =====
-- config.py, `parse_config`: the profiling targets.
use fused_index_top_k.Base.{
  ℕ, String, not, List, [], ◌∷◌, ◌++◌, leb, if◌then◌else◌, string_eq, nat_eq, subset, frozenset,
  Dict, keys, Result, ok, err, ◌>>=◌, ◌>>◌, raise_if, sorted,
}
use fused_index_top_k.Config.{
  Json, object, fields_of, ConfigError, not_an_object, not_benchmarked, CaseShapeConfig,
  ProfilingConfig, shape_eq, shape_leb,
}
use fused_index_top_k.Config.Read.{
  mapping, at, ordered_unique_ints, ordered_unique_case_shapes, unique_strings, integer_at,
}
use fused_index_top_k.Config.Workload.{shapes}
use fused_index_top_k.Config.Timing.{same_set}

abbrev pub legacy_profiling_fields : List String
legacy_profiling_fields =
    "target_lengths" ∷ "captured_iterations" ∷ "ncu_metrics" ∷ "ncu_sections" ∷ []

abbrev pub split_profiling_fields : List String
split_profiling_fields =
    "nsys_target_lengths" ∷ "ncu_target_lengths" ∷ "captured_iterations" ∷ "ncu_metrics"
    ∷ "ncu_sections" ∷ []

abbrev pub case_profiling_fields : List String
case_profiling_fields =
    "nsys_cases" ∷ "ncu_cases" ∷ "captured_iterations" ∷ "ncu_metrics" ∷ "ncu_sections" ∷ []

-- The checked mapping, `nsys_cases` and `ncu_cases`.
pub record ProfilingBranch (F : Type 0) : Type 0 where
  pub profiling_raw : Dict (Json F)
  pub branch_nsys : List CaseShapeConfig
  pub branch_ncu : List CaseShapeConfig

-- `sorted(set(nsys_cases) | set(ncu_cases), key=...)`
unfoldable pub union_sorted : List CaseShapeConfig → List CaseShapeConfig → List CaseShapeConfig
union_sorted xs ys = sorted shape_leb (frozenset (xs ++ ys))

-- `benchmark_cases[0].query_tokens`; the case matrices are not empty
abbrev pub first_query : List CaseShapeConfig → ℕ
first_query [] = 0
first_query (shape ∷ rest) = shape.query_tokens

module _ {F : Type 0} where
  unfoldable pub case_branch : Json F → Result ConfigError (ProfilingBranch F)
  case_branch value = do
    raw ← mapping value case_profiling_fields
    nsys_raw ← at raw "nsys_cases"
    nsys ← ordered_unique_case_shapes nsys_raw
    ncu_raw ← at raw "ncu_cases"
    ncu ← ordered_unique_case_shapes ncu_raw
    ok (record { profiling_raw = raw; branch_nsys = nsys; branch_ncu = ncu })

  unfoldable pub same_lengths_branch : ℕ → Json F → Result ConfigError (ProfilingBranch F)
  same_lengths_branch query value = do
    raw ← mapping value legacy_profiling_fields
    lengths_raw ← at raw "target_lengths"
    lengths ← ordered_unique_ints lengths_raw
    ok (record {
      profiling_raw = raw;
      branch_nsys = shapes query lengths;
      branch_ncu = shapes query lengths;
    })

  unfoldable pub split_lengths_branch : ℕ → Json F → Result ConfigError (ProfilingBranch F)
  split_lengths_branch query value = do
    raw ← mapping value split_profiling_fields
    nsys_raw ← at raw "nsys_target_lengths"
    nsys ← ordered_unique_ints nsys_raw
    ncu_raw ← at raw "ncu_target_lengths"
    ncu ← ordered_unique_ints ncu_raw
    ok (record {
      profiling_raw = raw;
      branch_nsys = shapes query nsys;
      branch_ncu = shapes query ncu;
    })

  unfoldable pub profiling_branch :
      ℕ → ℕ → Json F → List String → Result ConfigError (ProfilingBranch F)
  profiling_branch version query value fields =
      if leb 3 version
      then case_branch value
      else if same_set fields legacy_profiling_fields
      then same_lengths_branch query value
      else split_lengths_branch query value

  unfoldable pub parse_profiling :
      ℕ → List CaseShapeConfig → Json F → Result ConfigError ProfilingConfig
  parse_profiling version benchmark_cases (object fs) = do
    branch ←
        profiling_branch version (first_query benchmark_cases) (object fs) (keys (fields_of fs))
    let target_cases = union_sorted branch.branch_nsys branch.branch_ncu
    raise_if (not (subset target_cases benchmark_cases)) not_benchmarked
    let raw = branch.profiling_raw
    captured ← integer_at 1 raw "captured_iterations"
    metrics_raw ← at raw "ncu_metrics"
    metrics ← unique_strings metrics_raw
    sections_raw ← at raw "ncu_sections"
    sections ← unique_strings sections_raw
    ok (record {
      target_cases = target_cases;
      nsys_cases = branch.branch_nsys;
      ncu_cases = branch.branch_ncu;
      captured_iterations = captured;
      ncu_metrics = metrics;
      ncu_sections = sections;
    })
  parse_profiling version benchmark_cases other = err not_an_object
