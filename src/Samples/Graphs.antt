-- ===== src/Samples/Graphs.antt =====
-- A graph of two stages, listed in the wrong order; an artifact is a number.
use fused_index_top_k.Api.{
  benchmark, PrefillCase, VariantDescriptor, StageSpec, ExecutionContext, ArtifactStore, StageNode,
  PreparedGraph,
}
use fused_index_top_k.Base.{
  ℕ, ◌<◌, ◌+◌, ◌≡◌, refl, String, true, false, Option, none, some, List, [], ◌∷◌, string_eq, ◌==◌,
  if◌then◌else◌, contains, contains-put, keys, get, put, get_of_key, Member, ok, err, inl, inr,
  insert_sorted, sorted, frozenset, subst, sym, eq_iff, arith,
}
use fused_index_top_k.Graph.{not_executable}
use fused_index_top_k.Graph.Topological.{
  topological_nodes, topological_names, add_dependencies, add_stages, release_child, release, place,
}
use fused_index_top_k.Graph.Topological.Nodes.{
  stage_ids, IsExecutionOrder, topological_nodes-IsExecutionOrder,
}
use fused_index_top_k.Graph.Topological.Acyclic.{IsAcyclic, topological_nodes_total}
use fused_index_top_k.Graph.Validate.{
  safe_id, first_unsafe, ancestor_table, declare_produced, declare_all, check_stage, check_stages,
  check_terminal, validate_graph,
}
use fused_index_top_k.Graph.Validate.Lineage.{HasLineage, validate_graph-HasLineage}
use fused_index_top_k.Graph.Validate.Terminal.{HasTerminal, validate_graph-HasTerminal}
use fused_index_top_k.Graph.Validate.Redundant.{validate_graph_never_not_executable}
use fused_index_top_k.Graph.Execute.{
  StageContext, execute_graph, execute_nodes, execute_prevalidated, run_stage, run_within,
  check_produced,
}
use fused_index_top_k.Graph.Execute.Agreement.{stages_run, execute_prevalidated-same_stages}
use fused_index_top_k.Graph.Execute.Ranges.{well_scoped, execute_prevalidated-well_scoped}
use fused_index_top_k.Graph.Execute.Completes.{KeepsContract, execute_graph_total}

abbrev two_stage_descriptor : VariantDescriptor
two_stage_descriptor = record {
  plugin_id = "two_stages";
  display_name = "two stages";
  api_version = "1.0";
  implementation_version = "1";
  mode = "unfused";
  description = "";
  implementation = "";
  exact_topk = true;
  source_revision = none;
  supported_arches = [];
  tags = [];
}

abbrev spec : String → List String → List String → List String → String → StageSpec
spec id dependencies consumes produces op = record {
  stage_id = id;
  dependencies = dependencies;
  consumes = consumes;
  produces = produces;
  semantic_ops = op ∷ [];
  description = "";
  profile = true;
  kernel_regexes = [];
}

abbrev small_topk_spec : StageSpec
small_topk_spec = spec "a_topk" ("indexer" ∷ []) ("logits" ∷ []) ("indices" ∷ []) "topk"

abbrev small_indexer_spec : StageSpec
small_indexer_spec = spec "indexer" [] ("inputs" ∷ []) ("logits" ∷ []) "indexer"

abbrev move : String → String → ExecutionContext → ArtifactStore ℕ → Option (ArtifactStore ℕ)
move source target context store = elim (get store source) [
  | none ↦ none
  | some v ↦ some (put store target (v + 1))
]

abbrev pub topk_node : StageNode ℕ
topk_node = record { spec = small_topk_spec; run = move "logits" "indices" }

abbrev indexer_node : StageNode ℕ
indexer_node = record { spec = small_indexer_spec; run = move "inputs" "logits" }

abbrev pub graph : PreparedGraph ℕ
graph = record {
  descriptor = two_stage_descriptor;
  nodes = topk_node ∷ indexer_node ∷ [];
  initial_artifacts = ("inputs", 4) ∷ [];
  terminal_artifact = "indices";
}

abbrev pub ordered : List (StageNode ℕ)
ordered = indexer_node ∷ topk_node ∷ []

abbrev pub case : PrefillCase
case = record {
  case_id = "small";
  query_tokens = 2;
  context_tokens = 3;
  top_k = 2;
  seed = 7;
  batch_size = 1;
  indexer_heads = 64;
  head_dim = 128;
  causal = true;
}

abbrev context : ExecutionContext
context = record { case = case; mode = benchmark; iteration = 0 }

abbrev label_of : StageContext ℕ
label_of node = some node.spec.stage_id

in_order : topological_nodes graph ≡ ok ordered
unfolding topological_nodes topological_names add_dependencies add_stages release_child release
    place sorted insert_sorted
in_order = refl

pub valid : validate_graph graph ≡ ok ordered
unfolding validate_graph safe_id first_unsafe ancestor_table declare_produced declare_all
    check_stage check_stages check_terminal topological_nodes topological_names add_dependencies
    add_stages release_child release place sorted insert_sorted frozenset
valid = refl

topological_nodes-IsExecutionOrder_example : IsExecutionOrder graph.nodes ordered
topological_nodes-IsExecutionOrder_example =
    topological_nodes-IsExecutionOrder graph ordered in_order

abbrev rank : String → ℕ
rank id = if id == "a_topk" then 1 else 0

-- A property of both nodes holds of every node.
each :
    (P : StageNode ℕ → Type 0) (first second : StageNode ℕ)
    → P first
    → P second
    → (node : StageNode ℕ) → Member node (first ∷ second ∷ [])
    → P node
each P first second p q node (inl e) = subst P (sym e) p
each P first second p q node (inr (inl e)) = subst P (sym e) q
each P first second p q node (inr (inr never)) = absurd never

below_topk : (d : String) → contains small_topk_spec.dependencies d ≡ true → rank d < 1
below_topk d c =
    let e : "indexer" ≡ d = (eq_iff "indexer" d).0 (ground arith) in
    subst (λ t. rank t < 1) e (omega arith)

acyclic : IsAcyclic graph.nodes rank
acyclic = record {
  known = λ node d m.
      each (λ n. contains n.spec.dependencies d ≡ true → contains (stage_ids graph.nodes) d ≡ true)
        topk_node indexer_node (λ c. ground arith) (λ c. ground arith) node m;
  falls = λ node d m.
      each (λ n. contains n.spec.dependencies d ≡ true → rank d < rank n.spec.stage_id) topk_node
        indexer_node (λ c. below_topk d c) (λ c. ground arith) node m;
}

topological_nodes_total_example :
    (nodes : List (StageNode ℕ)) × (topological_nodes graph ≡ ok nodes)
topological_nodes_total_example = topological_nodes_total graph rank acyclic

move_keeps :
    (id : String) (dependencies : List String) (source target op : String)
    → KeepsContract context (record {
      spec = spec id dependencies (source ∷ []) (target ∷ []) op;
      run = move source target;
    })
move_keeps id dependencies source target op store h =
    let (v, is) = get_of_key store source (h source (ground (arith, eq_iff source source))) in
    let step = contains-put store target (v + 1) in
    (
      put store target (v + 1),
      ground (arith, is),
      λ a m. ground (arith, step a),
      λ a m. ground (arith, step a),
    )

keeps : (node : StageNode ℕ) → Member node ordered → KeepsContract context node
keeps =
    each (KeepsContract context) indexer_node topk_node
      (move_keeps "indexer" [] "inputs" "logits" "indexer")
      (move_keeps "a_topk" ("indexer" ∷ []) "logits" "indices" "topk")

execute_graph_total_example :
    (final : ArtifactStore ℕ) × ((execute_graph graph context (some label_of)).0 ≡ ok final)
    × (contains (keys final) "indices" ≡ true)
    × (stages_run (execute_graph graph context (some label_of)).1 ≡ ("indexer" ∷ "a_topk" ∷ []))
execute_graph_total_example =
    execute_graph_total graph ordered context (some label_of) valid keeps
      (λ node m. (node.spec.stage_id, refl))

validate_graph-HasLineage_example : HasLineage ("inputs" ∷ []) ordered
validate_graph-HasLineage_example = validate_graph-HasLineage graph ordered valid

validate_graph-HasTerminal_example : HasTerminal "indices" ordered
validate_graph-HasTerminal_example = validate_graph-HasTerminal graph ordered valid

validate_graph_never_not_executable_example :
    ¬ (validate_graph graph ≡ err (not_executable "a_topk"))
validate_graph_never_not_executable_example = validate_graph_never_not_executable graph "a_topk"

abbrev final : ArtifactStore ℕ
final = ("inputs", 4) ∷ ("logits", 5) ∷ ("indices", 6) ∷ []

ran_through :
    (execute_prevalidated ordered context graph.initial_artifacts (some label_of) true).0 ≡ ok final
unfolding execute_prevalidated execute_nodes run_within run_stage check_produced
ran_through = refl

execute_prevalidated-same_stages_example :
    ((execute_prevalidated ordered context graph.initial_artifacts none false).0 ≡ ok final)
    × (stages_run (execute_prevalidated ordered context graph.initial_artifacts none false).1
        ≡ ("indexer" ∷ "a_topk" ∷ []))
    × (stages_run
          (execute_prevalidated ordered context graph.initial_artifacts (some label_of) true).1
        ≡ ("indexer" ∷ "a_topk" ∷ []))
execute_prevalidated-same_stages_example =
    execute_prevalidated-same_stages ordered context graph.initial_artifacts final (some label_of)
      true ran_through

-- Without its input the first stage raises, within its range.
execute_prevalidated-well_scoped_example :
    well_scoped false (execute_prevalidated ordered context [] (some label_of) true).1 ≡ true
execute_prevalidated-well_scoped_example =
    execute_prevalidated-well_scoped ordered context [] label_of true
