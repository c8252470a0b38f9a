-- ===== src/Config/Accepted.antt =====
-- What `parse_config` establishes when it returns a configuration.
use fused_index_top_k.Base.{
  ℕ, ◌≤◌, ◌≡◌, ap, ◌∙◌, String, true, false, not, some, [], ◌∷◌, ltb, ◌==◌, string_eq, nat_eq,
  contains, IsUnique, Dict, keys, get, put, ok, raise_if, >>=-eq-ok, raise_if-eq-ok, returned,
  arith, eq_iff, get-put, ltb_false→le,
}
use fused_index_top_k.Config.{
  Json, null, boolean, integer, real, text, array, object, no_fields, field, fields_of, to_fields,
  Floats, ConfigError, empty_text, unsafe_text, bad_factory, bad_schema_version, bad_commit,
  unknown_reference, unknown_baseline, TargetConfig, SourceConfig, WorkloadConfig, TimingConfig,
  ProfilingConfig, VariantConfig, LabConfig, shape_eq,
}
use fused_index_top_k.Config.Read.{
  safe_name, hex_commit, good_factory, mapping, at, read_string, read_variant, load_variants,
  string_at, integer_at, options_of,
}
use fused_index_top_k.Graph.Validate.Parts.{>>-ok}
use fused_index_top_k.Config.Workload.{parse_workload}
use fused_index_top_k.Config.Readers.{integer_at-le}
use fused_index_top_k.Config.Timing.{parse_timing}
use fused_index_top_k.Config.Profiling.{parse_profiling}
use fused_index_top_k.Config.Parse.{
  root_fields, with_reference, parse_target, parse_sources, safe_string_at, named_variant,
  parse_root, parse_config, finish_config,
}
use fused_index_top_k.Config.Read.{load_each}
use fused_index_top_k.Base.{put-IsUnique}
use fused_index_top_k.Config.Contract.{TruncatesMinusOne}
use fused_index_top_k.Config.Canonical.{IsWorkload, parse_workload-IsWorkload}
use fused_index_top_k.Config.Schedule.{IsTiming, parse_timing-IsTiming}
use fused_index_top_k.Config.Targets.{IsTargets, parse_profiling-IsTargets}

-- Each variant is configured once, under a safe name, with a `module:object` factory.
pub record AreVariants {F : Type 0} (variants : Dict (VariantConfig F)) : Type 0 where
  pub named_once : IsUnique (keys variants)
  pub loadable :
      (name : String) (variant : VariantConfig F)
      → get variants name ≡ some variant
      → (safe_name name ≡ true) × (good_factory variant.factory ≡ true)

pub record IsConfig {F : Type 0} (fl : Floats F) (config : LabConfig F) : Type 0 where
  pub known_schema : (1 ≤ config.schema_version) × (config.schema_version ≤ 4)
  pub commit : hex_commit config.sources.deep_gemm_commit ≡ true
  pub workload_ok : IsWorkload config.workload
  pub timing_ok : IsTiming fl config.schema_version config.timing
  pub targets_ok : IsTargets config.workload.benchmark_cases config.profiling
  pub variants_ok : AreVariants config.variants
  pub reference_known : contains (keys config.variants) config.exact_reference_variant ≡ true
  pub baseline_known : contains (keys config.variants) config.baseline_variant ≡ true

read_string-safe :
    (F : Type 0) (s name : String)
    → read_string {F = F} true (text s) ≡ ok name
    → safe_name s ≡ true
unfolding read_string
read_string-safe F s name h =
    let (_, h1) = >>-ok (raise_if (s == "") empty_text) _ h in
    let (safe, _) = >>-ok (raise_if (not (safe_name s)) unsafe_text) (ok s) h1 in ground arith

module _ {F : Type 0} where
  options_of-factory :
      (factory : String) (options : Json F) (variant : VariantConfig F)
      → options_of factory options ≡ ok variant
      → variant.factory ≡ factory
  options_of-factory factory (object fs) variant h = ground arith
  options_of-factory factory null variant h = ground arith
  options_of-factory factory (boolean b) variant h = ground arith
  options_of-factory factory (integer n) variant h = ground arith
  options_of-factory factory (real x) variant h = ground arith
  options_of-factory factory (text s) variant h = ground arith
  options_of-factory factory (array xs) variant h = ground arith

  read_variant-factory :
      (raw : Json F) (variant : VariantConfig F)
      → read_variant raw ≡ ok variant
      → good_factory variant.factory ≡ true
  unfolding read_variant
  read_variant-factory raw variant h =
      let (entry, _, h1) = >>=-eq-ok (mapping raw ("factory" ∷ "options" ∷ [])) _ h in
      let (v, _, h2) = >>=-eq-ok (at entry "factory") _ h1 in
      let (factory, _, h3) = >>=-eq-ok (read_string false v) _ h2 in
      let (good, h4) = >>-ok (raise_if (not (good_factory factory)) bad_factory) _ h3 in
      let (options, _, h5) = >>=-eq-ok (at entry "options") _ h4 in
      ap good_factory (options_of-factory factory options variant h5) ∙ ground arith

  load_each-AreVariants :
      (raw : Dict (Json F)) (before after : Dict (VariantConfig F))
      → AreVariants before
      → load_each raw before ≡ ok after
      → AreVariants after
  unfolding load_each
  load_each-AreVariants [] before after are h = returned (λ d. AreVariants d) h are
  load_each-AreVariants ((k, raw) ∷ rest) before after are h =
      let (name, safe, h1) = >>=-eq-ok (read_string true (text k)) _ h in
      let (variant, read, h2) = >>=-eq-ok (read_variant raw) _ h1 in
      load_each-AreVariants rest (put before k variant) after
        (record {
          named_once = put-IsUnique before k variant are.named_once;
          loadable = λ j v g. ground (
            arith,
            get-put before k variant j,
            are.loadable j v,
            eq_iff k j,
            read_string-safe F k name safe,
            read_variant-factory raw variant read,
          );
        })
        h2

  load_variants-AreVariants :
      (value : Json F) (variants : Dict (VariantConfig F))
      → load_variants value ≡ ok variants
      → AreVariants variants
  unfolding load_variants
  load_variants-AreVariants (object (field k v fs)) variants h =
      load_each-AreVariants (fields_of (field k v fs)) [] variants
        (record { named_once = tt; loadable = λ j v g. ground arith }) h
  load_variants-AreVariants (object no_fields) variants h = ground arith
  load_variants-AreVariants null variants h = ground arith
  load_variants-AreVariants (boolean b) variants h = ground arith
  load_variants-AreVariants (integer n) variants h = ground arith
  load_variants-AreVariants (real x) variants h = ground arith
  load_variants-AreVariants (text s) variants h = ground arith
  load_variants-AreVariants (array xs) variants h = ground arith

  parse_sources-commit :
      (value : Json F) (s : SourceConfig)
      → parse_sources value ≡ ok s
      → hex_commit s.deep_gemm_commit ≡ true
  unfolding parse_sources
  parse_sources-commit value s h =
      let (raw, _, h1) =
        >>=-eq-ok (mapping value ("deep_gemm_commit" ∷ "torch_version" ∷ [])) _ h in
      let (commit, _, h2) = >>=-eq-ok (string_at raw "deep_gemm_commit") _ h1 in
      let (hex, h3) = >>-ok (raise_if (not (hex_commit commit)) bad_commit) _ h2 in
      let (version, _, h4) = >>=-eq-ok (string_at raw "torch_version") _ h3 in
      returned (λ s. hex_commit s.deep_gemm_commit ≡ true) h4 (ground arith)

  named_variant-known :
      (root : Dict (Json F)) (variants : Dict (VariantConfig F)) (key : String) (e : ConfigError)
      (name : String)
      → named_variant root variants key e ≡ ok name
      → contains (keys variants) name ≡ true
  unfolding named_variant
  named_variant-known root variants key e name h =
      let (read, _, h1) = >>=-eq-ok (safe_string_at root key) _ h in
      let (known, is) = >>-ok (raise_if (not (contains (keys variants) read)) e) (ok read) h1 in
      returned (λ n. contains (keys variants) n ≡ true) is (ground arith)

module _ {F : Type 0} (fl : Floats F) (law : TruncatesMinusOne fl) where
  finish_config-IsConfig :
      (version : ℕ) (target : TargetConfig) (sources : SourceConfig) (workload : WorkloadConfig)
      (timing : TimingConfig F) (profiling : ProfilingConfig) (root : Dict (Json F))
      (config : LabConfig F)
      → (1 ≤ version) × (version ≤ 4)
      → hex_commit sources.deep_gemm_commit ≡ true
      → IsWorkload workload
      → IsTiming fl version timing
      → IsTargets workload.benchmark_cases profiling
      → finish_config version target sources workload timing profiling root ≡ ok config
      → IsConfig fl config
  unfolding finish_config
  finish_config-IsConfig version target sources workload timing profiling root config known hex w t
        p h =
      let (variants_raw, _, h1) = >>=-eq-ok (at root "variants") _ h in
      let (variants, v, h2) = >>=-eq-ok (load_variants variants_raw) _ h1 in
      let (reference, r, h3) =
        >>=-eq-ok (named_variant root variants "exact_reference_variant" unknown_reference) _ h2 in
      let (baseline, b, h4) =
        >>=-eq-ok (named_variant root variants "baseline_variant" unknown_baseline) _ h3 in
      let (name, _, h5) = >>=-eq-ok (safe_string_at root "name") _ h4 in
      let (seed, _, h6) = >>=-eq-ok (integer_at 0 root "seed") _ h5 in
      returned (λ c. IsConfig fl c) h6
        (record {
          known_schema = known;
          commit = hex;
          workload_ok = w;
          timing_ok = t;
          targets_ok = p;
          variants_ok = load_variants-AreVariants variants_raw variants v;
          reference_known =
              named_variant-known root variants "exact_reference_variant" unknown_reference
                reference r;
          baseline_known =
              named_variant-known root variants "baseline_variant" unknown_baseline baseline b;
        })

  parse_root-IsConfig :
      (root : Dict (Json F)) (config : LabConfig F)
      → parse_root fl root ≡ ok config
      → IsConfig fl config
  unfolding parse_root
  parse_root-IsConfig root config h =
      let (version, one, h1) = >>=-eq-ok (integer_at 1 root "schema_version") _ h in
      let (four, h2) = >>-ok (raise_if (ltb 4 version) bad_schema_version) _ h1 in
      let (target_raw, _, h3) = >>=-eq-ok (at root "target") _ h2 in
      let (target, _, h4) = >>=-eq-ok (parse_target target_raw) _ h3 in
      let (sources_raw, _, h5) = >>=-eq-ok (at root "sources") _ h4 in
      let (sources, s, h6) = >>=-eq-ok (parse_sources sources_raw) _ h5 in
      let (workload_raw, _, h7) = >>=-eq-ok (at root "workload") _ h6 in
      let (workload, w, h8) = >>=-eq-ok (parse_workload fl version workload_raw) _ h7 in
      let (timing_raw, _, h9) = >>=-eq-ok (at root "timing") _ h8 in
      let (timing, t, h10) = >>=-eq-ok (parse_timing fl version timing_raw) _ h9 in
      let (profiling_raw, _, h11) = >>=-eq-ok (at root "profiling") _ h10 in
      let (profiling, p, h12) =
        >>=-eq-ok (parse_profiling version workload.benchmark_cases profiling_raw) _ h11 in
      let le = ltb_false→le 4 version (raise_if-eq-ok (ltb 4 version) bad_schema_version four) in
      finish_config-IsConfig version target sources workload timing profiling root config
        (integer_at-le 1 root "schema_version" version one, le)
        (parse_sources-commit sources_raw sources s)
        (parse_workload-IsWorkload fl law version workload_raw workload w)
        (parse_timing-IsTiming fl version timing_raw timing t)
        (parse_profiling-IsTargets version workload.benchmark_cases profiling_raw profiling p) h12

  -- An accepted configuration is well-formed, in each of the four schemas: its case
  -- matrices are ordered, without repetition and with 1 <= Q <= N, 1 <= K <= N throughout, the tensor
  -- contract is the fixed one, the timing is that of its schema with one campaign order for each
  -- repetition, the profiling targets are benchmark cases, and the reference and the baseline are
  -- configured variants. The parameter `int` returns -1 on the number that equals -1.
  pub parse_config-IsConfig :
      (raw : Json F) (config : LabConfig F) → parse_config fl raw ≡ ok config → IsConfig fl config
  unfolding parse_config
  parse_config-IsConfig (object fs) config h =
      let (root, _, h1) =
        >>=-eq-ok (mapping (object (to_fields (with_reference (fields_of fs)))) root_fields) _ h in
      parse_root-IsConfig root config h1
  parse_config-IsConfig null config h = ground arith
  parse_config-IsConfig (boolean b) config h = ground arith
  parse_config-IsConfig (integer n) config h = ground arith
  parse_config-IsConfig (real x) config h = ground arith
  parse_config-IsConfig (text s) config h = ground arith
  parse_config-IsConfig (array xs) config h = ground arith
