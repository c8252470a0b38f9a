-- ===== src/Kernel/Plugin.antt =====
-- The graph that `FusedIndexTopK.prepare` builds in kernel/plugin.py, with its stages' callables.
-- A launch of a compiled extension is the host's checks of sizes and numbers (Kernel.Host) and then
-- the device, which returns (`true`) or raises (Launches). The buffers that the launches fill are
-- values that the graph hands on. `is_contiguous` stands for the two `narrow` views of a chunk, which
-- raise out of range, and for the test that they are contiguous.
use fused_index_top_k.Api.{StageNode, PreparedGraph, ExecutionContext, ArtifactStore, PrefillCase}
use fused_index_top_k.Base.{
  ℕ, suc, Bool, true, ◌&&◌, Option, none, some, List, [], ◌∷◌, eqb, if◌then◌else◌, string_eq, get,
  put, not, Result, ok, ◌>>=◌, ◌>>◌, raise_if,
}
use fused_index_top_k.Kernel.{
  Chunk, chunks, num_chunks, Doubles, KernelError, supports, production_sample_elements,
  guarded_sample_rank, target_candidates, unsupported_case, options_changed_after_construction,
}
use fused_index_top_k.Kernel.Specs.{
  descriptor, sample_gather_spec, sample_indexer_spec, sample_threshold_spec, fused_topk_spec,
  hierarchical_repair_spec,
}
use fused_index_top_k.Kernel.Host.{
  gather_accepts, threshold_accepts, topk_accepts, ranges_accept, producer_accepts, local_accepts,
  reducer_accepts,
}

pub record Launches (V : Type 0) : Type 0 where
  pub num_sms : ℕ
  pub gather_out : V → Bool
  pub threshold_out : V → V → ℕ → ℕ → Bool
  pub fp8_mqa_logits : V → Option V
  pub fp8_mqa_topk_out : V → V → Bool
  pub update_ranges_out : V → Bool
  pub is_contiguous : V → ℕ → ℕ → Bool
  pub produce_repair_candidates_out : V → ℕ → ℕ → Bool
  pub local_topk_pairs_out : ℕ → Bool → Bool
  pub merge_topk_pairs_out : Bool → Bool
  pub finalize_repair_out : Bool

pub record Buffers (V : Type 0) : Type 0 where
  pub sampled_kv : V
  pub sampled_scales : V
  pub thresholds : V
  pub failure_flags : V
  pub output_rows : V
  pub trace : V
  pub spill_pairs : V
  pub repair_error_flags : V

-- A constructed operator, as far as the host code reads it.
pub record Operator (D : Type 0) : Type 0 where
  pub sample_guard_sigmas : D
  pub debug_ctas : ℕ
  pub block_q : ℕ

-- The numbers of `prepare` and of the operator that the stages' callables close over.
pub record Sizes : Type 0 where
  pub case : PrefillCase
  pub sample_elements : ℕ
  pub sample_rank : ℕ
  pub block_q : ℕ
  pub debug_ctas : ℕ

abbrev pub sizes_of : {D : Type 0} → Operator D → PrefillCase → ℕ → ℕ → Sizes
sizes_of operator case sample_elements sample_rank = record {
  case = case;
  sample_elements = sample_elements;
  sample_rank = sample_rank;
  block_q = operator.block_q;
  debug_ctas = operator.debug_ctas;
}

module _ {V : Type 0} where
  unfoldable pub run_sample_gather :
      Sizes → Launches V → Buffers V → ExecutionContext → ArtifactStore V → Option (ArtifactStore V)
  run_sample_gather z l b context artifacts = elim (get artifacts "inputs") [
    | none ↦ none
    | some inputs ↦
        if gather_accepts z.sample_elements z.case.head_dim && l.gather_out inputs
        then some (put (put artifacts "sampled_kv" b.sampled_kv) "sampled_scales" b.sampled_scales)
        else none
  ]

  unfoldable pub run_sample_indexer :
      Launches V → ExecutionContext → ArtifactStore V → Option (ArtifactStore V)
  run_sample_indexer l context artifacts = elim (get artifacts "inputs") [
    | none ↦ none
    | some inputs ↦ elim (l.fp8_mqa_logits inputs) [
      | none ↦ none
      | some scores ↦ some (put artifacts "sampled_scores" scores)
    ]
  ]

  unfoldable pub run_sample_threshold :
      Sizes → Launches V → Buffers V → ExecutionContext → ArtifactStore V → Option (ArtifactStore V)
  run_sample_threshold z l b context artifacts = elim (get artifacts "inputs") [
    | none ↦ none
    | some inputs ↦ elim (get artifacts "sampled_scores") [
      | none ↦ none
      | some scores ↦
          if threshold_accepts z.case.query_tokens z.sample_elements z.sample_rank target_candidates
            && l.threshold_out inputs scores z.sample_rank target_candidates
          then some (put artifacts "thresholds" b.thresholds)
          else none
    ]
  ]

  unfoldable pub run_fused_topk :
      Sizes → Launches V → Buffers V → ExecutionContext → ArtifactStore V → Option (ArtifactStore V)
  run_fused_topk z l b context artifacts = elim (get artifacts "inputs") [
    | none ↦ none
    | some inputs ↦ elim (get artifacts "thresholds") [
      | none ↦ none
      | some thresholds ↦
          if topk_accepts l.num_sms z.block_q z.debug_ctas z.case.query_tokens z.case.context_tokens
              z.case.indexer_heads z.case.head_dim
            && l.fp8_mqa_topk_out inputs thresholds
          then some (
              put
                (put
                  (put (put artifacts "fast_failure_flags" b.failure_flags) "fast_indices"
                    b.output_rows)
                  "phase_trace" b.trace)
                "spill_pairs" b.spill_pairs)
          else none
    ]
  ]

  -- One chunk's launches, in order.
  unfoldable pub repair_chunk : PrefillCase → Launches V → V → ℕ → Chunk → Bool
  repair_chunk case l inputs chunk_index chunk =
      l.is_contiguous inputs chunk.logical_offset chunk.chunk_elements
      && (producer_accepts case.query_tokens chunk.chunk_elements case.indexer_heads case.head_dim
          && l.produce_repair_candidates_out inputs chunk.logical_offset chunk.chunk_elements)
      && (local_accepts case.query_tokens chunk.logical_offset
          && l.local_topk_pairs_out chunk.logical_offset (eqb chunk_index 0))
      && (reducer_accepts case.query_tokens && l.merge_topk_pairs_out (eqb chunk_index 0))

  -- `for chunk_index, chunk in enumerate(chunks)`
  unfoldable pub repair_chunks : PrefillCase → Launches V → V → ℕ → List Chunk → Bool
  repair_chunks case l inputs chunk_index [] = true
  repair_chunks case l inputs chunk_index (chunk ∷ rest) =
      repair_chunk case l inputs chunk_index chunk
      && repair_chunks case l inputs (suc chunk_index) rest

  unfoldable pub run_hierarchical_repair :
      PrefillCase
      → Launches V
      → Buffers V
      → ExecutionContext
      → ArtifactStore V
      → Option (ArtifactStore V)
  run_hierarchical_repair case l b context artifacts = elim (get artifacts "inputs") [
    | none ↦ none
    | some inputs ↦
        if (ranges_accept case.query_tokens case.context_tokens (num_chunks case.context_tokens)
            && l.update_ranges_out inputs)
          && repair_chunks case l inputs 0 (chunks case.context_tokens)
          && (reducer_accepts case.query_tokens && l.finalize_repair_out)
        then some (
            put
              (put (put artifacts "failure_flags" b.failure_flags) "repair_error_flags"
                b.repair_error_flags)
              "indices" b.output_rows)
        else none
  ]

  unfoldable pub fused_nodes : Sizes → Launches V → Buffers V → List (StageNode V)
  fused_nodes z l b =
      record { spec = sample_gather_spec; run = run_sample_gather z l b }
      ∷ record { spec = sample_indexer_spec; run = run_sample_indexer l }
      ∷ record { spec = sample_threshold_spec; run = run_sample_threshold z l b }
      ∷ record { spec = fused_topk_spec; run = run_fused_topk z l b }
      ∷ record { spec = hierarchical_repair_spec; run = run_hierarchical_repair z.case l b }
      ∷ []

  unfoldable pub fused_graph : Sizes → V → Launches V → Buffers V → PreparedGraph V
  fused_graph z inputs l b = record {
    descriptor = descriptor;
    nodes = fused_nodes z l b;
    initial_artifacts = ("inputs", inputs) ∷ [];
    terminal_artifact = "indices";
  }

  -- `prepare`, for a constructed operator; the options that the caller passes either are the
  -- operator's or have changed.
  unfoldable pub prepare :
      {D : Type 0}
      → Doubles D
      → Operator D
      → Bool
      → PrefillCase
      → V
      → Launches V
      → Buffers V
      → Result KernelError (PreparedGraph V)
  prepare doubles operator options_changed case inputs l b = do
    raise_if (not (supports operator.block_q case)) unsupported_case
    raise_if options_changed options_changed_after_construction
    sample_elements ← production_sample_elements case.context_tokens
    sample_rank ←
        guarded_sample_rank doubles operator.sample_guard_sigmas sample_elements case.context_tokens
          target_candidates
    let sizes = sizes_of operator case sample_elements sample_rank
    ok (fused_graph sizes inputs l b)
