-- ===== src/Config.antt =====
-- src/fused_index_topk/config.py: decoded JSON, the typed configuration and the errors of its parser.
-- A message is left out: an error says which check has failed.
pub mod Read
pub mod Workload
pub mod Timing
pub mod Profiling
pub mod Parse
pub mod Cases
pub mod Ordered
pub mod Readers
pub mod Matrices
pub mod Contract
pub mod Canonical
pub mod Schedule
pub mod Targets
pub mod Accepted
pub mod Matrix
use fused_index_top_k.Base.{
  ℕ, ℤ, String, Bool, List, [], ◌∷◌, Dict, leb, ltb, eqb, ◌&&◌, ◌||◌, false, Eq, ◌==◌, nat_eq, ◌≡◌,
  true, ap₂, refl, &&-true, arith, ◌↔◌, Option,
}

-- What `json.load` returns; F is the type of floating-point numbers.
mutual
  pub data Json (F : Type 0) : Type 0 where
    null : Json F
    boolean : Bool → Json F
    integer : ℤ → Json F
    real : F → Json F
    text : String → Json F
    array : Items F → Json F
    object : Fields F → Json F

  pub data Items (F : Type 0) : Type 0 where
    no_items : Items F
    item : Json F → Items F → Items F

  pub data Fields (F : Type 0) : Type 0 where
    no_fields : Fields F
    field : String → Json F → Fields F → Fields F

-- A decoded array as a list, a decoded object as a dictionary, and back.
abbrev pub items_of : {F : Type 0} → Items F → List (Json F)
items_of no_items = []
items_of (item x xs) = x ∷ items_of xs

abbrev pub fields_of : {F : Type 0} → Fields F → Dict (Json F)
fields_of no_fields = []
fields_of (field k v fs) = (k, v) ∷ fields_of fs

abbrev pub to_items : {F : Type 0} → List (Json F) → Items F
to_items [] = no_items
to_items (x ∷ xs) = item x (to_items xs)

abbrev pub to_fields : {F : Type 0} → Dict (Json F) → Fields F
to_fields [] = no_fields
to_fields ((k, v) ∷ d) = field k v (to_fields d)

-- Floating-point numbers as the parser uses them: `float(n)` (`none` where it overflows),
-- `math.isfinite`, `x < 0.0`, `x == -1` and `int(x)`.
pub record Floats (F : Type 0) : Type 0 where
  pub float_of : ℤ → Option F
  pub is_finite : F → Bool
  pub is_negative : F → Bool
  pub is_minus_one : F → Bool
  pub truncate : F → ℤ

-- One constructor for each `raise ConfigError`; a missing key and the overflow of `float` are
-- the exceptions of another class.
pub data ConfigError : Type 0 where
  not_an_object unknown_fields missing_fields not_an_integer not_a_number not_a_boolean :
      ConfigError
  empty_text unsafe_text not_a_list not_increasing context_below_query not_ordered : ConfigError
  repeated_text no_variants bad_factory options_not_an_object : ConfigError
  bad_schema_version bad_capability bad_commit lengths_below_query bad_batch_size : ConfigError
  not_causal broken_contract bad_score_dtype bad_output_dtype top_k_too_large : ConfigError
  bad_method bad_flush_bytes no_orders wrong_order_count bad_order : ConfigError
  not_benchmarked unknown_reference unknown_baseline : ConfigError
  bad_purpose not_configured ambiguous unknown_variant bad_mode : ConfigError
  key_error overflow_error : ConfigError

pub record TargetConfig : Type 0 where
  pub gpu_name : String
  pub compute_capability : ℕ × ℕ
  pub multiprocessor_count : ℕ
  pub total_memory_bytes : ℕ
  pub require_single_visible_gpu : Bool

pub record SourceConfig : Type 0 where
  pub deep_gemm_commit : String
  pub torch_version : String

pub record CaseShapeConfig : Type 0 where
  pub query_tokens : ℕ
  pub context_tokens : ℕ

pub record WorkloadConfig : Type 0 where
  pub batch_size : ℕ
  pub benchmark_cases : List CaseShapeConfig
  pub correctness_cases : List CaseShapeConfig
  pub top_k : ℕ
  pub indexer_heads : ℕ
  pub head_dim : ℕ
  pub causal : Bool
  pub q_dtype : String
  pub kv_dtype : String
  pub kv_scale_dtype : String
  pub weight_dtype : String
  pub range_dtype : String
  pub score_dtype : String
  pub output_dtype : String
  pub selection : String
  pub output_order : String
  pub padding_index : ℤ
  pub tie_policy : String
  pub causal_range : String

pub record TimingConfig (F : Type 0) : Type 0 where
  pub method : String
  pub warmup_iterations : ℕ
  pub event_trials : ℕ
  pub kineto_trials : ℕ
  pub l2_flush_bytes : ℕ
  pub cooldown_seconds : F
  pub campaign_repetitions : ℕ
  pub campaign_orders : List String

pub record ProfilingConfig : Type 0 where
  pub target_cases : List CaseShapeConfig
  pub nsys_cases : List CaseShapeConfig
  pub ncu_cases : List CaseShapeConfig
  pub captured_iterations : ℕ
  pub ncu_metrics : List String
  pub ncu_sections : List String

pub record VariantConfig (F : Type 0) : Type 0 where
  pub factory : String
  pub options : Dict (Json F)

pub record LabConfig (F : Type 0) : Type 0 where
  pub schema_version : ℕ
  pub name : String
  pub seed : ℕ
  pub target : TargetConfig
  pub sources : SourceConfig
  pub workload : WorkloadConfig
  pub timing : TimingConfig F
  pub profiling : ProfilingConfig
  pub exact_reference_variant : String
  pub baseline_variant : String
  pub variants : Dict (VariantConfig F)

-- Equality of shapes, and the order by `(query_tokens, context_tokens)`.
abbrev pub shape_eqb : CaseShapeConfig → CaseShapeConfig → Bool
shape_eqb a b = eqb a.query_tokens b.query_tokens && eqb a.context_tokens b.context_tokens

pub shape_eqb_iff : (a b : CaseShapeConfig) → (shape_eqb a b ≡ true) ↔ (a ≡ b)
shape_eqb_iff a b = ground arith

instance abbrev pub shape_eq : Eq CaseShapeConfig
shape_eq = record { beq = shape_eqb; beq_iff = shape_eqb_iff }

abbrev pub shape_leb : CaseShapeConfig → CaseShapeConfig → Bool
shape_leb a b =
    ltb a.query_tokens b.query_tokens
    || (eqb a.query_tokens b.query_tokens && leb a.context_tokens b.context_tokens)
