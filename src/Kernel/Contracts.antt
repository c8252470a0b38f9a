-- ===== src/Kernel/Contracts.antt =====
-- The stages of the fused operator keep their contracts: the host's checks pass on the sizes of a
-- supported case.
use fused_index_top_k.Api.{StageNode, ExecutionContext, ArtifactStore}
use fused_index_top_k.Base.{
  String, ◌≡◌, refl, sym, subst, true, some, List, [], ◌∷◌, contains, string_eq, ◌==◌, keys, get,
  put, get_of_key, contains-put, Member, inl, inr, arith,
}
use fused_index_top_k.Graph.Execute.Completes.{Holds, KeepsContract}
use fused_index_top_k.Kernel.{chunks, num_chunks, target_candidates}
use fused_index_top_k.Kernel.Specs.{
  sample_gather_spec, sample_indexer_spec, sample_threshold_spec, fused_topk_spec,
  hierarchical_repair_spec,
}
use fused_index_top_k.Kernel.Fitting.{LaunchesReturn, IsFitting, repair_chunks_return}
use fused_index_top_k.Kernel.Host.{
  gather_accepts, threshold_accepts, topk_accepts, ranges_accept, reducer_accepts,
}
use fused_index_top_k.Kernel.Plugin.{
  Sizes, Launches, Buffers, run_sample_gather, run_sample_indexer, run_sample_threshold,
  run_fused_topk, run_hierarchical_repair, fused_nodes,
}
use fused_index_top_k.Kernel.Chunks.{chunks-IsPartition}

module _ {V : Type 0} where
  -- A store after one more artifact.
  put_keeps :
      (store : ArtifactStore V) (k : String) (v : V) (names : List String)
      → Holds store names
      → Holds (put store k v) names
  put_keeps store k v names h a m = ground (arith, contains-put store k v a, h a m)

  has :
      (store : ArtifactStore V) (names : List String) (name : String)
      → Holds store names
      → contains names name ≡ true
      → (v : V) × (get store name ≡ some v)
  has store names name h m = get_of_key store name (h name m)

  put_has :
      (store : ArtifactStore V) (k : String) (v : V) (a : String)
      → k == a ≡ true
      → contains (keys (put store k v)) a ≡ true
  put_has store k v a e = ground (arith, contains-put store k v a)

  module _ (z : Sizes) (l : Launches V) (b : Buffers V) (context : ExecutionContext)
      (r : LaunchesReturn z.case.context_tokens l) (f : IsFitting l.num_sms z) where
    gather_keeps :
        KeepsContract context (record { spec = sample_gather_spec; run = run_sample_gather z l b })
    unfolding run_sample_gather gather_accepts
    gather_keeps store h =
        let (inputs, is) = has store ("inputs" ∷ []) "inputs" h refl in
        let one = put store "sampled_kv" b.sampled_kv in
        let two = put one "sampled_scales" b.sampled_scales in
        let step = contains-put store "sampled_kv" b.sampled_kv in
        let step' = contains-put one "sampled_scales" b.sampled_scales in
        (
          two,
          ground (arith, is, r.gathers inputs),
          λ a m. ground (arith, step a, step' a),
          λ a m. ground (arith, step a, step' a),
        )

    indexer_keeps :
        KeepsContract context (record { spec = sample_indexer_spec; run = run_sample_indexer l })
    unfolding run_sample_indexer
    indexer_keeps store h =
        let (inputs, is) = has store sample_indexer_spec.consumes "inputs" h refl in
        let (scores, made) = r.scores inputs in
        let step = contains-put store "sampled_scores" scores in
        (
          put store "sampled_scores" scores,
          ground (arith, is, made),
          λ a m. ground (arith, step a),
          λ a m. ground (arith, step a),
        )

    threshold_accepted :
        threshold_accepts z.case.query_tokens z.sample_elements z.sample_rank target_candidates
        ≡ true
    unfolding threshold_accepts
    threshold_accepted = ground arith

    topk_accepted :
        topk_accepts l.num_sms z.block_q z.debug_ctas z.case.query_tokens z.case.context_tokens
          z.case.indexer_heads z.case.head_dim
        ≡ true
    unfolding topk_accepts
    topk_accepted = ground (arith, f.block_size)

    ranges_accepted :
        ranges_accept z.case.query_tokens z.case.context_tokens (num_chunks z.case.context_tokens)
        ≡ true
    unfolding ranges_accept num_chunks
    ranges_accepted = ground arith

    rows_accepted : reducer_accepts z.case.query_tokens ≡ true
    unfolding reducer_accepts
    rows_accepted = ground arith

    threshold_keeps :
        KeepsContract context
          (record { spec = sample_threshold_spec; run = run_sample_threshold z l b })
    unfolding run_sample_threshold
    threshold_keeps store h =
        let (inputs, is) = has store sample_threshold_spec.consumes "inputs" h refl in
        let (scores, is') = has store sample_threshold_spec.consumes "sampled_scores" h refl in
        let step = contains-put store "thresholds" b.thresholds in
        (
          put store "thresholds" b.thresholds,
          ground (
            arith,
            is,
            is',
            threshold_accepted,
            r.thresholds inputs scores z.sample_rank target_candidates,
          ),
          λ a m. ground (arith, step a),
          λ a m. ground (arith, step a),
        )

    topk_keeps :
        KeepsContract context (record { spec = fused_topk_spec; run = run_fused_topk z l b })
    unfolding run_fused_topk
    topk_keeps store h =
        let (inputs, is) = has store fused_topk_spec.consumes "inputs" h refl in
        let (thresholds, is') = has store fused_topk_spec.consumes "thresholds" h refl in
        let one = put store "fast_failure_flags" b.failure_flags in
        let two = put one "fast_indices" b.output_rows in
        let three = put two "phase_trace" b.trace in
        let step = contains-put store "fast_failure_flags" b.failure_flags in
        let step1 = contains-put one "fast_indices" b.output_rows in
        let step2 = contains-put two "phase_trace" b.trace in
        let step3 = contains-put three "spill_pairs" b.spill_pairs in
        (
          put three "spill_pairs" b.spill_pairs,
          ground (arith, is, is', topk_accepted, r.selects inputs thresholds),
          λ a m. ground (arith, step a, step1 a, step2 a, step3 a),
          λ a m. ground (arith, step a, step1 a, step2 a, step3 a),
        )

    repair_keeps :
        KeepsContract context
          (record { spec = hierarchical_repair_spec; run = run_hierarchical_repair z.case l b })
    unfolding run_hierarchical_repair
    repair_keeps store h =
        let (inputs, is) = has store hierarchical_repair_spec.consumes "inputs" h refl in
        let (partition, _) = chunks-IsPartition z.case.context_tokens (omega arith) f.in_tiles in
        let all =
          repair_chunks_return z l inputs 0 0 (chunks z.case.context_tokens) r f partition in
        let one = put store "failure_flags" b.failure_flags in
        let two = put one "repair_error_flags" b.repair_error_flags in
        let step = contains-put store "failure_flags" b.failure_flags in
        let step1 = contains-put one "repair_error_flags" b.repair_error_flags in
        let step2 = contains-put two "indices" b.output_rows in
        (
          put two "indices" b.output_rows,
          ground (arith, is, ranges_accepted, r.ranges inputs, all, rows_accepted, r.finishes),
          λ a m. ground (arith, step a, step1 a, step2 a),
          λ a m. ground (arith, step a, step1 a, step2 a),
        )

    pub nodes_keep :
        (node : StageNode V) → Member node (fused_nodes z l b) → KeepsContract context node
    unfolding fused_nodes
    nodes_keep node (inl e) = subst (KeepsContract context) (sym e) gather_keeps
    nodes_keep node (inr (inl e)) = subst (KeepsContract context) (sym e) indexer_keeps
    nodes_keep node (inr (inr (inl e))) = subst (KeepsContract context) (sym e) threshold_keeps
    nodes_keep node (inr (inr (inr (inl e)))) = subst (KeepsContract context) (sym e) topk_keeps
    nodes_keep node (inr (inr (inr (inr (inl e))))) =
        subst (KeepsContract context) (sym e) repair_keeps
    nodes_keep node (inr (inr (inr (inr (inr never))))) = absurd never
