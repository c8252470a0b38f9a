-- ===== src/Config/Cases.antt =====
-- config.py: the cases of a configuration, by purpose, and the look-ups in it.
use Prim.Native.String.{◌++◌}
use fused_index_top_k.Base.{
  ℕ, zero, suc, ◌%◌, String, Bool, ◌&&◌, Option, none, some, List, [], ◌∷◌, map, ltb, eqb,
  if◌then◌else◌, ◌==◌, string_eq, nat_eq, filterb, anyb, Dict, get, Result, ok, err, ◌>>=◌,
}
use fused_index_top_k.Base.{◌/◌}
use fused_index_top_k.Config.{
  Json, ConfigError, bad_purpose, not_configured, ambiguous, unknown_variant, bad_mode,
  CaseShapeConfig, LabConfig, shape_eq,
}
use fused_index_top_k.Config.Read.{collect}
use fused_index_top_k.Api.{PrefillCase}

-- The decimal text of a number, as an f-string prints it.
abbrev pub digit : ℕ → String
digit n =
    if eqb n 0
    then "0"
    else if eqb n 1
    then "1"
    else if eqb n 2
    then "2"
    else if eqb n 3
    then "3"
    else if eqb n 4
    then "4"
    else if eqb n 5
    then "5"
    else if eqb n 6
    then "6"
    else if eqb n 7
    then "7"
    else if eqb n 8
    then "8"
    else "9"

-- n has at most n + 1 digits.
abbrev pub decimal_from : ℕ → ℕ → String → String
decimal_from zero n rest = rest
decimal_from (suc fuel) n rest =
    let text = digit (n % 10) ++ rest in
    let more = decimal_from fuel (n / 10) text in if ltb n 10 then text else more

unfoldable pub decimal : ℕ → String
decimal n = decimal_from (suc n) n ""

-- f"prefill-{purpose}-q{query}-kv{context}-k{top_k}"
unfoldable pub case_id_of : String → ℕ → ℕ → ℕ → String
case_id_of purpose query context top_k =
    "prefill-"
    ++ purpose
    ++ "-q"
    ++ decimal query
    ++ "-kv"
    ++ decimal context
    ++ "-k"
    ++ decimal top_k

-- `shape.context_tokens == context and (query is None or shape.query_tokens == query)`
abbrev pub shape_matches : ℕ → Option ℕ → CaseShapeConfig → Bool
shape_matches context none shape = eqb shape.context_tokens context
shape_matches context (some query) shape =
    eqb shape.context_tokens context && eqb shape.query_tokens query

-- The one shape that matches.
abbrev pub only : List CaseShapeConfig → Result ConfigError CaseShapeConfig
only [] = err not_configured
only (shape ∷ []) = ok shape
only (shape ∷ another ∷ rest) = err ambiguous

module _ {F : Type 0} where
  abbrev pub allowed_cases : LabConfig F → String → Result ConfigError (List CaseShapeConfig)
  allowed_cases config purpose =
      if purpose == "benchmark"
      then ok config.workload.benchmark_cases
      else if purpose == "correctness"
      then ok config.workload.correctness_cases
      else if purpose == "profile"
      then ok config.profiling.target_cases
      else err bad_purpose

  -- The fields of `PrefillCase(...)` in `make_case`.
  abbrev pub case_of : LabConfig F → String → ℕ → CaseShapeConfig → PrefillCase
  case_of config purpose context shape = record {
    case_id = case_id_of purpose shape.query_tokens context config.workload.top_k;
    query_tokens = shape.query_tokens;
    context_tokens = context;
    top_k = config.workload.top_k;
    seed = config.seed;
    batch_size = config.workload.batch_size;
    indexer_heads = config.workload.indexer_heads;
    head_dim = config.workload.head_dim;
    causal = config.workload.causal;
  }

  unfoldable pub make_case : LabConfig F → ℕ → Option ℕ → String → Result ConfigError PrefillCase
  make_case config context query purpose = do
    allowed ← allowed_cases config purpose
    shape ← only (filterb (shape_matches context query) allowed)
    ok (case_of config purpose context shape)

  unfoldable pub case : LabConfig F → ℕ → Option ℕ → Result ConfigError PrefillCase
  case config context query = make_case config context query (
      if anyb (shape_matches context query) config.profiling.target_cases
      then "profile"
      else "benchmark")

  abbrev pub make_all :
      LabConfig F → String → List CaseShapeConfig → Result ConfigError (List PrefillCase)
  make_all config purpose = collect (λ (shape : CaseShapeConfig).
      make_case config shape.context_tokens (some shape.query_tokens) purpose)

  unfoldable pub benchmark_cases : LabConfig F → Result ConfigError (List PrefillCase)
  benchmark_cases config = make_all config "benchmark" config.workload.benchmark_cases

  unfoldable pub correctness_cases : LabConfig F → Result ConfigError (List PrefillCase)
  correctness_cases config = make_all config "correctness" config.workload.correctness_cases

  unfoldable pub profile_cases : LabConfig F → Result ConfigError (List PrefillCase)
  profile_cases config = make_all config "profile" config.profiling.target_cases

  unfoldable pub build_prefill_cases : LabConfig F → String → Result ConfigError (List PrefillCase)
  build_prefill_cases config purpose =
      if purpose == "benchmark"
      then benchmark_cases config
      else if purpose == "correctness"
      then correctness_cases config
      else if purpose == "profile"
      then profile_cases config
      else err bad_purpose

  unfoldable pub profile_shapes : LabConfig F → String → Result ConfigError (List CaseShapeConfig)
  profile_shapes config mode =
      if mode == "nsys"
      then ok config.profiling.nsys_cases
      else if mode == "ncu"
      then ok config.profiling.ncu_cases
      else err bad_mode

  unfoldable pub profile_lengths : LabConfig F → String → Result ConfigError (List ℕ)
  profile_lengths config mode = do
    shapes ← profile_shapes config mode
    ok (map (λ (shape : CaseShapeConfig). shape.context_tokens) shapes)

  unfoldable pub variant_factory : LabConfig F → String → Result ConfigError String
  variant_factory config plugin_id = elim (get config.variants plugin_id) [
    | none ↦ err unknown_variant
    | some variant ↦ ok variant.factory
  ]

  unfoldable pub variant_options : LabConfig F → String → Result ConfigError (Dict (Json F))
  variant_options config plugin_id = elim (get config.variants plugin_id) [
    | none ↦ err unknown_variant
    | some variant ↦ ok variant.options
  ]
