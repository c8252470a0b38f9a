-- ===== src/Kernel/Runs.antt =====
-- The graph of the fused operator passes `validate_graph` and runs to its end.
use fused_index_top_k.Api.{PrefillCase, PreparedGraph, ExecutionContext, ArtifactStore}
use fused_index_top_k.Base.{
  ℕ, ◌*◌, ◌≤◌, ◌<◌, ◌⊎◌, inl, inr, ◌||◌, eqb, Result, err, ◌≡◌, refl, true, false, none, [], ◌∷◌,
  contains, string_eq, keys, ok, arith, frozenset, sorted,
}
use fused_index_top_k.Graph.Topological.{
  topological_nodes, topological_names, add_dependencies, add_stages, release_child, release, place,
}
use fused_index_top_k.Graph.Validate.{
  safe_id, first_unsafe, ancestor_table, declare_produced, declare_all, check_stage, check_stages,
  check_terminal, validate_graph,
}
use fused_index_top_k.Graph.Execute.{execute_graph}
use fused_index_top_k.Graph.Execute.Agreement.{stages_run}
use fused_index_top_k.Graph.Execute.Completes.{execute_graph_total}
use fused_index_top_k.Kernel.{
  supports, Doubles, rank_estimate, KernelError, no_ceiling, production_sample_elements,
  target_candidates,
}
use fused_index_top_k.Variants.{supports_frozen_deepgemm_case}
use fused_index_top_k.Kernel.Plugin.{
  Operator, Sizes, sizes_of, Launches, Buffers, fused_nodes, fused_graph, prepare,
}
use fused_index_top_k.Kernel.Sampling.{supported_samples}
use fused_index_top_k.Kernel.Contracts.{nodes_keep}
use fused_index_top_k.Kernel.Fitting.{LaunchesReturn, IsFitting}

-- What `__init__` has tested when an operator is constructed.
pub record IsConstructed {D : Type 0} (doubles : Doubles D) (operator : Operator D) : Type 0 where
  pub not_negative : doubles.is_negative operator.sample_guard_sigmas ≡ false
  pub finite : doubles.is_finite operator.sample_guard_sigmas ≡ true
  pub block_size : (eqb operator.block_q 1 || eqb operator.block_q 2) ≡ true

supported-IsFitting :
    {D : Type 0} (operator : Operator D) (num_sms : ℕ) (case : PrefillCase) (samples rank : ℕ)
    → supports operator.block_q case ≡ true
    → (eqb operator.block_q 1 || eqb operator.block_q 2) ≡ true
    → operator.debug_ctas ≤ num_sms * 2
    → 0 < samples
    → samples ≤ case.context_tokens
    → 1 ≤ rank
    → rank ≤ samples
    → IsFitting num_sms (sizes_of operator case samples rank)
unfolding supports supports_frozen_deepgemm_case
supported-IsFitting operator num_sms case samples rank h block sms p q r t = record {
  some_rows = ground (arith, h);
  rows_fit = ground (arith, h);
  rows_in_pairs = ground (arith, h);
  rows_in_blocks = ground (arith, h);
  block_size = block;
  long_enough = ground (arith, h);
  short_enough = ground (arith, h);
  in_tiles = ground (arith, h);
  heads = ground (arith, h);
  dim = ground (arith, h);
  some_samples = p;
  samples_fit = q;
  positive_rank = r;
  rank_fits = t;
  enough_sms = sms;
}

module _ {V : Type 0} where
  fused_graph_valid :
      (z : Sizes) (inputs : V) (l : Launches V) (b : Buffers V)
      → validate_graph (fused_graph z inputs l b) ≡ ok (fused_nodes z l b)
  unfolding validate_graph fused_graph fused_nodes safe_id first_unsafe ancestor_table
      declare_produced declare_all check_stage check_stages check_terminal topological_nodes
      topological_names add_dependencies add_stages release_child release place frozenset sorted
  fused_graph_valid z inputs l b = refl

  -- A graph that is prepared, validated and run to its end, its stages in order.
  abbrev pub IsRun : Result KernelError (PreparedGraph V) → ExecutionContext → Type 0
  IsRun prepared context =
      (graph : PreparedGraph V) × (final : ArtifactStore V) × (prepared ≡ ok graph)
      × (validate_graph graph ≡ ok graph.nodes)
      × ((execute_graph graph context none).0 ≡ ok final)
      × (contains (keys final) "indices" ≡ true)
      × (stages_run (execute_graph graph context none).1 ≡ (
          "sample_gather" ∷ "sample_indexer" ∷ "sample_threshold" ∷ "fused_topk"
          ∷ "hierarchical_repair" ∷ []))

  module _ {D : Type 0} (doubles : Doubles D) (operator : Operator D) where
    -- Take a constructed operator whose debug_ctas is at most twice the device's multiprocessors, a
    -- case that it supports and unchanged options, and let the device do its part of the launches
    -- and the views of a chunk within the context be contiguous. Then `prepare` returns a graph
    -- that `validate_graph` accepts, all checks of the launches on sizes and numbers pass, and
    -- executing the graph without a stage context runs its five stages once each, in the order in
    -- which they are listed here, and leaves the terminal artifact `indices` in the store; or the
    -- estimate of the sample rank has no ceiling, and `prepare` raises the error of `math.ceil`.
    pub prepare-runs :
        (case : PrefillCase) (inputs : V) (l : Launches V) (b : Buffers V)
        → (context : ExecutionContext) → IsConstructed doubles operator
        → operator.debug_ctas ≤ l.num_sms * 2
        → supports operator.block_q case ≡ true
        → LaunchesReturn case.context_tokens l
        → IsRun (prepare doubles operator false case inputs l b) context
          ⊎ ((samples : ℕ) × (production_sample_elements case.context_tokens ≡ ok samples)
              × (doubles.ceil (
                    rank_estimate doubles operator.sample_guard_sigmas samples case.context_tokens
                      target_candidates)
                  ≡ none)
              × (prepare doubles operator false case inputs l b ≡ err no_ceiling))
    unfolding prepare fused_graph fused_nodes
    prepare-runs case inputs l b context c sms h r =
        let (samples, sampled, good, outcome) =
          supported_samples doubles operator.sample_guard_sigmas operator.block_q case h
            c.not_negative c.finite in
        elim outcome [
          | inr (out, raised) ↦ inr (samples, sampled, out, rw (h, sampled, raised))
          | inl (_, rank, _, ranked, positive, within, _) ↦
              let z = sizes_of operator case samples rank in
              let graph = fused_graph z inputs l b in
              let fits =
                supported-IsFitting operator l.num_sms case samples rank h c.block_size sms good.0
                  good.1 positive within in
              let valid = fused_graph_valid z inputs l b in
              let (final, done, terminal, stages) =
                execute_graph_total graph (fused_nodes z l b) context none valid
                  (nodes_keep z l b context r fits) tt in
              inl (graph, final, rw (h, sampled, ranked), valid, done, terminal, stages)
        ]
