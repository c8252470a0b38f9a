-- ===== src/Variants/DeepgemmTorch.antt =====
-- src/fused_index_topk/variants/deepgemm_torch.py: the exact reference, an unfused graph.
use fused_index_top_k.Api.{
  VariantDescriptor, StageNode, PreparedGraph, ExecutionContext, ArtifactStore, PrefillCase,
}
use fused_index_top_k.Base.{
  ℕ, min, ◌≤◌, ◌≡◌, refl, sym, subst, Bool, true, false, not, ◌&&◌, none, some, List, [], ◌∷◌, eqb,
  leb, string_eq, contains, contains-put, frozenset, sorted, keys, put, get_of_key, Member, inl,
  inr, anyb, ℤ, is_nonneg, lt_minus_one, outside, Result, ok, ◌>>◌, raise_if, arith,
}
use fused_index_top_k.Graph.Topological.{
  topological_nodes, topological_names, add_dependencies, add_stages, release_child, release, place,
}
use fused_index_top_k.Graph.Validate.{
  safe_id, first_unsafe, ancestor_table, declare_produced, declare_all, check_stage, check_stages,
  check_terminal, validate_graph,
}
use fused_index_top_k.Graph.Execute.{execute_graph}
use fused_index_top_k.Graph.Execute.Agreement.{stages_run}
use fused_index_top_k.Graph.Execute.Completes.{KeepsContract, execute_graph_total}
use fused_index_top_k.Variants.Stages.{
  Calls, output_row, run_indexer, run_topk, run_output, deepgemm_indexer_stage,
  torch_exact_topk_stage, int32_output_stage,
}

abbrev pub torch_descriptor : VariantDescriptor
torch_descriptor = record {
  plugin_id = "deepgemm_torch_unfused";
  display_name = "DeepGEMM + torch.topk unfused";
  api_version = "1.0";
  implementation_version = "2";
  mode = "unfused";
  description = "Released SM90 FP8 Indexer, PyTorch exact TopK, and INT32 output pack";
  implementation = "deepgemm+pytorch";
  exact_topk = true;
  source_revision = some "deepgemm:7c95b14;torch:2.10.0+cu130";
  supported_arches = "sm90" ∷ [];
  tags = "exact-reference" ∷ "prefill" ∷ "sm90" ∷ [];
}

pub data TorchError : Type 0 where
  unsupported options_changed : TorchError

-- `DeepGemmTorchUnfused.supports`
unfoldable pub torch_supports : PrefillCase → Bool
torch_supports case =
    eqb case.batch_size 1
    && case.causal
    && eqb case.indexer_heads 64
    && eqb case.head_dim 128
    && leb case.query_tokens case.context_tokens

module _ {V : Type 0} where
  unfoldable pub torch_nodes : Calls V → List (StageNode V)
  torch_nodes calls =
      deepgemm_indexer_stage calls ∷ torch_exact_topk_stage calls ∷ int32_output_stage calls ∷ []

  -- `DeepGemmTorchUnfused.prepare`
  unfoldable pub torch_prepare :
      Bool → PrefillCase → V → Calls V → Result TorchError (PreparedGraph V)
  torch_prepare changed case inputs calls = do
    raise_if (not (torch_supports case)) unsupported
    raise_if changed options_changed
    ok (record {
      descriptor = torch_descriptor;
      nodes = torch_nodes calls;
      initial_artifacts = ("inputs", inputs) ∷ [];
      terminal_artifact = "indices";
    })

  -- The calls return: TopK for a size that is at most the width of its argument.
  pub record CallsReturn (calls : Calls V) : Type 0 where
    pub scores : (v : V) → (s : V) × (calls.fp8_mqa_logits v ≡ some s)
    pub selects : (v : V) (n : ℕ) → n ≤ calls.width v → (r : V × V) × (calls.topk v n ≡ some r)
    pub packs : (values ids inputs : V) → (o : V) × (calls.pack values ids inputs ≡ some o)

  module _ (calls : Calls V) (r : CallsReturn calls) (context : ExecutionContext) where
    indexer_keeps : KeepsContract context (deepgemm_indexer_stage calls)
    unfolding deepgemm_indexer_stage run_indexer
    indexer_keeps store h =
        let (inputs, is) = get_of_key store "inputs" (h "inputs" refl) in
        let (logits, made) = r.scores inputs in
        let step = contains-put store "logits" logits in
        (
          put store "logits" logits,
          ground (arith, is, made),
          λ a m. ground (arith, step a),
          λ a m. ground (arith, step a),
        )

    topk_keeps : KeepsContract context (torch_exact_topk_stage calls)
    unfolding torch_exact_topk_stage run_topk
    topk_keeps store h =
        let (logits, is) = get_of_key store "logits" (h "logits" refl) in
        let (found, made) =
          r.selects logits (min context.case.top_k (calls.width logits)) (omega arith) in
        let one = put store "topk_values" found.0 in
        let step = contains-put store "topk_values" found.0 in
        let step' = contains-put one "topk_ids" found.1 in
        (
          put one "topk_ids" found.1,
          ground (arith, is, made),
          λ a m. ground (arith, step a, step' a),
          λ a m. ground (arith, step a, step' a),
        )

    output_keeps : KeepsContract context (int32_output_stage calls)
    unfolding int32_output_stage run_output
    output_keeps store h =
        let (inputs, is) = get_of_key store "inputs" (h "inputs" refl) in
        let (values, is') = get_of_key store "topk_values" (h "topk_values" refl) in
        let (ids, is'') = get_of_key store "topk_ids" (h "topk_ids" refl) in
        let (indices, made) = r.packs values ids inputs in
        let step = contains-put store "indices" indices in
        (
          put store "indices" indices,
          ground (arith, is, is', is'', made),
          λ a m. ground (arith, step a),
          λ a m. ground (arith, step a),
        )

    torch_nodes_keep :
        (node : StageNode V) → Member node (torch_nodes calls) → KeepsContract context node
    unfolding torch_nodes
    torch_nodes_keep node (inl e) = subst (KeepsContract context) (sym e) indexer_keeps
    torch_nodes_keep node (inr (inl e)) = subst (KeepsContract context) (sym e) topk_keeps
    torch_nodes_keep node (inr (inr (inl e))) = subst (KeepsContract context) (sym e) output_keeps
    torch_nodes_keep node (inr (inr (inr never))) = absurd never

    -- For every case that the exact reference supports, with unchanged options, `prepare` returns
    -- a graph that `validate_graph` accepts; and when the scorer and the output pack return and
    -- TopK returns for sizes up to the width of its argument, executing the graph without a stage
    -- context runs indexer, topk and output once each in this order and leaves `indices` in the
    -- store.
    pub torch_prepare-runs :
        (case : PrefillCase) (inputs : V)
        → torch_supports case ≡ true
        → (graph : PreparedGraph V) × (final : ArtifactStore V) × (torch_prepare false case inputs
              calls
            ≡ ok graph)
          × (validate_graph graph ≡ ok graph.nodes)
          × ((execute_graph graph context none).0 ≡ ok final)
          × (contains (keys final) "indices" ≡ true)
          × (stages_run (execute_graph graph context none).1 ≡ ("indexer" ∷ "topk" ∷ "output" ∷ []))
    unfolding torch_prepare torch_nodes deepgemm_indexer_stage torch_exact_topk_stage
        int32_output_stage validate_graph safe_id first_unsafe ancestor_table declare_produced
        declare_all check_stage check_stages check_terminal topological_nodes topological_names
        add_dependencies add_stages release_child release place frozenset sorted
    torch_prepare-runs case inputs h =
        let graph : PreparedGraph V = record {
          descriptor = torch_descriptor;
          nodes = torch_nodes calls;
          initial_artifacts = ("inputs", inputs) ∷ [];
          terminal_artifact = "indices";
        } in
        let valid : validate_graph graph ≡ ok (torch_nodes calls) = refl in
        let (final, done, terminal, stages) =
          execute_graph_total graph (torch_nodes calls) context none valid torch_nodes_keep tt in
        (graph, final, ground (arith, h), valid, done, terminal, stages)

-- No row of the output stage holds a negative ID other than -1 or an ID at or beyond the row's end,
-- whatever values and IDs TopK returned.
pub output_row-in_range :
    (finite : ℕ → Bool) (k_end : ℕ) (values : List ℕ) (ids : List ℤ)
    → (anyb lt_minus_one (output_row finite k_end values ids) ≡ false)
      × (anyb (λ v. is_nonneg v && outside k_end v) (output_row finite k_end values ids) ≡ false)
unfolding output_row
output_row-in_range finite k_end [] ids = (refl, refl)
output_row-in_range finite k_end (value ∷ values) [] = (refl, refl)
output_row-in_range finite k_end (value ∷ values) (ℤ.pos n ∷ ids) =
    ground (arith, output_row-in_range finite k_end values ids)
output_row-in_range finite k_end (value ∷ values) (ℤ.negsuc n ∷ ids) =
    ground (arith, output_row-in_range finite k_end values ids)
