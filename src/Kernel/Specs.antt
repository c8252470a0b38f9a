-- ===== src/Kernel/Specs.antt =====
-- The descriptor of `FusedIndexTopK` and the specifications of its stages, in kernel/plugin.py.
use fused_index_top_k.Api.{VariantDescriptor, StageSpec}
use fused_index_top_k.Base.{true, some, [], ◌∷◌}

abbrev pub descriptor : VariantDescriptor
descriptor = record {
  plugin_id = "fused_index_topk";
  display_name = "FusedIndexTopK";
  api_version = "1.0";
  implementation_version = "2.3.0";
  mode = "fused";
  description =
      "Same-kernel DeepGEMM-style score production and exact Top-K with bounded overflow salvage and device-masked exact repair";
  implementation = "project-local-deepgemm-derivative+custom-cuda-radix";
  exact_topk = true;
  source_revision = some "fused-index-topk-v2.3-q1";
  supported_arches = "sm90" ∷ [];
  tags =
      "prefill" ∷ "sm90" ∷ "deepseek-v3.2" ∷ "same-kernel-exact-topk" ∷ "bounded-overflow-salvage"
      ∷ "device-exactness-guard" ∷ "no-host-sync" ∷ "no-dense-logits" ∷ [];
}

abbrev pub sample_gather_spec : StageSpec
sample_gather_spec = record {
  stage_id = "sample_gather";
  dependencies = [];
  consumes = "inputs" ∷ [];
  produces = "sampled_kv" ∷ "sampled_scales" ∷ [];
  semantic_ops = "indexer" ∷ [];
  description = "Gather common random-token KV sample";
  profile = true;
  kernel_regexes = "gather_sampled_kv" ∷ [];
}

abbrev pub sample_indexer_spec : StageSpec
sample_indexer_spec = record {
  stage_id = "sample_indexer";
  dependencies = "sample_gather" ∷ [];
  consumes = "inputs" ∷ "sampled_kv" ∷ "sampled_scales" ∷ [];
  produces = "sampled_scores" ∷ [];
  semantic_ops = "indexer" ∷ [];
  description = "Unmodified DeepGEMM scorer over sampled KV";
  profile = true;
  kernel_regexes = "sm90_fp8_mqa_logits" ∷ [];
}

abbrev pub sample_threshold_spec : StageSpec
sample_threshold_spec = record {
  stage_id = "sample_threshold";
  dependencies = "sample_indexer" ∷ [];
  consumes = "inputs" ∷ "sampled_scores" ∷ [];
  produces = "thresholds" ∷ [];
  semantic_ops = "topk" ∷ [];
  description = "Long-context guarded sample radix threshold";
  profile = true;
  kernel_regexes = "sampled_threshold_radix" ∷ [];
}

abbrev pub fused_topk_spec : StageSpec
fused_topk_spec = record {
  stage_id = "fused_topk";
  dependencies = "sample_threshold" ∷ [];
  consumes = "inputs" ∷ "thresholds" ∷ [];
  produces = "fast_failure_flags" ∷ "fast_indices" ∷ [];
  semantic_ops = "indexer" ∷ "topk" ∷ "output" ∷ [];
  description = "GEMM and exact TopK in CTA SMEM; lossless segment-relative IDs";
  profile = true;
  kernel_regexes = "itk_fused_index_topk_long" ∷ [];
}

abbrev pub hierarchical_repair_spec : StageSpec
hierarchical_repair_spec = record {
  stage_id = "hierarchical_repair";
  dependencies = "fused_topk" ∷ [];
  consumes = "inputs" ∷ "fast_failure_flags" ∷ "fast_indices" ∷ [];
  produces = "failure_flags" ∷ "repair_error_flags" ∷ "indices" ∷ [];
  semantic_ops = "indexer" ∷ "topk" ∷ "output" ∷ [];
  description = "Device-masked exact 16K chunk rescans with online Top-2048 pair merge";
  profile = true;
  kernel_regexes =
      "masked_repair_producer" ∷ "itk_update_chunk_ranges" ∷ "itk_chunk_local_topk"
      ∷ "itk_merge_topk_pairs" ∷ "itk_finalize_repair" ∷ [];
}
