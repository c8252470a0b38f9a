-- ===== src/Api.antt =====
-- src/fused_index_topk/api.py: the contracts shared by the runner and the variants.
use fused_index_top_k.Base.{ℕ, ◌-◌, String, Bool, Option, List, Dict}

pub data RunMode : Type 0 where
  correctness benchmark nsys ncu : RunMode

pub record PrefillCase : Type 0 where
  pub case_id : String
  pub query_tokens : ℕ
  pub context_tokens : ℕ
  pub top_k : ℕ
  pub seed : ℕ
  pub batch_size : ℕ
  pub indexer_heads : ℕ
  pub head_dim : ℕ
  pub causal : Bool

-- `context_tokens - query_tokens`, for the cases that the configuration admits
-- (`query_tokens <= context_tokens`).
abbrev pub query_start : PrefillCase → ℕ
query_start case = case.context_tokens - case.query_tokens

pub record VariantDescriptor : Type 0 where
  pub plugin_id : String
  pub display_name : String
  pub api_version : String
  pub implementation_version : String
  pub mode : String
  pub description : String
  pub implementation : String
  pub exact_topk : Bool
  pub source_revision : Option String
  pub supported_arches : List String
  pub tags : List String

-- One physical stage of a variant graph.
pub record StageSpec : Type 0 where
  pub stage_id : String
  pub dependencies : List String
  pub consumes : List String
  pub produces : List String
  pub semantic_ops : List String
  pub description : String
  pub profile : Bool
  pub kernel_regexes : List String

pub record ExecutionContext : Type 0 where
  pub case : PrefillCase
  pub mode : RunMode
  pub iteration : ℕ

-- The artifacts of one graph iteration; their values are whatever the stages exchange.
abbrev pub ArtifactStore : Type 0 → Type 0
ArtifactStore V = Dict V

-- A stage's callable returns the store that it leaves behind, or raises (`none`).
pub record StageNode (V : Type 0) : Type 0 where
  pub spec : StageSpec
  pub run : ExecutionContext → ArtifactStore V → Option (ArtifactStore V)

pub record PreparedGraph (V : Type 0) : Type 0 where
  pub descriptor : VariantDescriptor
  pub nodes : List (StageNode V)
  pub initial_artifacts : Dict V
  pub terminal_artifact : String
