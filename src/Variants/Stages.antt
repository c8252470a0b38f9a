-- ===== src/Variants/Stages.antt =====
-- src/fused_index_topk/variants/common.py: the stages that the released operators share. The calls
-- of DeepGEMM and PyTorch are parameters: they return values or raise.
use fused_index_top_k.Api.{StageSpec, StageNode, ExecutionContext, ArtifactStore}
use fused_index_top_k.Base.{
  ℕ, min, String, Bool, true, not, ◌&&◌, Option, none, some, List, [], ◌∷◌, if◌then◌else◌,
  string_eq, get, put, ℤ, is_nonneg, outside,
}

pub record Calls (V : Type 0) : Type 0 where
  pub fp8_mqa_logits : V → Option V
  pub width : V → ℕ
  pub topk : V → ℕ → Option (V × V)
  pub clean_tail : V → Option V
  pub launcher : V → Bool
  pub pack : V → V → V → Option V

abbrev pub indexer_spec : StageSpec
indexer_spec = record {
  stage_id = "indexer";
  dependencies = [];
  consumes = "inputs" ∷ [];
  produces = "logits" ∷ [];
  semantic_ops = "indexer" ∷ [];
  description = "DeepGEMM FP8 MQA scorer plus causal cleanup";
  profile = true;
  kernel_regexes = "sm90_fp8_mqa_logits" ∷ "clean_logits" ∷ [];
}

abbrev pub topk_spec : String → List String → StageSpec
topk_spec description kernel_regexes = record {
  stage_id = "topk";
  dependencies = "indexer" ∷ [];
  consumes = "logits" ∷ [];
  produces = "topk_values" ∷ "topk_ids" ∷ [];
  semantic_ops = "topk" ∷ [];
  description = description;
  profile = true;
  kernel_regexes = kernel_regexes;
}

abbrev pub output_spec : StageSpec
output_spec = record {
  stage_id = "output";
  dependencies = "topk" ∷ [];
  consumes = "inputs" ∷ "topk_values" ∷ "topk_ids" ∷ [];
  produces = "indices" ∷ [];
  semantic_ops = "output" ∷ [];
  description = "Causal validity, -1 padding, INT32 cast, and contiguous pack";
  profile = true;
  kernel_regexes = [];
}

-- One row of `torch.where(valid, ids, -1)` in `int32_output_stage`, for the values and IDs of the
-- row and its `k_end`; `finite` is `torch.isfinite`.
unfoldable pub output_row : (ℕ → Bool) → ℕ → List ℕ → List ℤ → List ℤ
output_row finite k_end (value ∷ values) (id ∷ ids) =
    (if finite value && is_nonneg id && not (outside k_end id) then id else ℤ.negsuc 0)
    ∷ output_row finite k_end values ids
output_row finite k_end _ _ = []

module _ {V : Type 0} (calls : Calls V) where
  unfoldable pub run_indexer : ExecutionContext → ArtifactStore V → Option (ArtifactStore V)
  run_indexer context artifacts = elim (get artifacts "inputs") [
    | none ↦ none
    | some inputs ↦ elim (calls.fp8_mqa_logits inputs) [
      | none ↦ none
      | some logits ↦ some (put artifacts "logits" logits)
    ]
  ]

  unfoldable pub run_topk : ExecutionContext → ArtifactStore V → Option (ArtifactStore V)
  run_topk context artifacts = elim (get artifacts "logits") [
    | none ↦ none
    | some logits ↦ elim (calls.topk logits (min context.case.top_k (calls.width logits))) [
      | none ↦ none
      | some (values, ids) ↦ some (put (put artifacts "topk_values" values) "topk_ids" ids)
    ]
  ]

  -- `external_topk_stage`: the launcher fills the two output buffers.
  unfoldable pub run_external_topk :
      V → V → ExecutionContext → ArtifactStore V → Option (ArtifactStore V)
  run_external_topk values ids context artifacts = elim (get artifacts "logits") [
    | none ↦ none
    | some logits ↦ elim (calls.clean_tail logits) [
      | none ↦ none
      | some physical ↦
          if calls.launcher physical
          then some (put (put artifacts "topk_values" values) "topk_ids" ids)
          else none
    ]
  ]

  unfoldable pub run_output : ExecutionContext → ArtifactStore V → Option (ArtifactStore V)
  run_output context artifacts = elim (get artifacts "inputs") [
    | none ↦ none
    | some inputs ↦ elim (get artifacts "topk_values") [
      | none ↦ none
      | some values ↦ elim (get artifacts "topk_ids") [
        | none ↦ none
        | some ids ↦ elim (calls.pack values ids inputs) [
          | none ↦ none
          | some indices ↦ some (put artifacts "indices" indices)
        ]
      ]
    ]
  ]

  unfoldable pub deepgemm_indexer_stage : StageNode V
  deepgemm_indexer_stage = record { spec = indexer_spec; run = run_indexer }

  unfoldable pub torch_exact_topk_stage : StageNode V
  torch_exact_topk_stage = record {
    spec =
        topk_spec "PyTorch CUDA exact TopK" ("mbtopk" ∷ "radixFindKthValues" ∷ "gatherTopK" ∷ []);
    run = run_topk;
  }

  unfoldable pub external_topk_stage : String → V → V → List String → StageNode V
  external_topk_stage description values ids kernel_regexes = record {
    spec = topk_spec description ("fill" ∷ kernel_regexes);
    run = run_external_topk values ids;
  }

  unfoldable pub int32_output_stage : StageNode V
  int32_output_stage = record { spec = output_spec; run = run_output }
