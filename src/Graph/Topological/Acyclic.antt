-- ===== src/Graph/Topological/Acyclic.antt =====
-- Graphs without a cycle are never rejected by the topological order.
use fused_index_top_k.Api.{StageNode, PreparedGraph}
use fused_index_top_k.Base.{
  ℕ, ◌<◌, String, ◌≡◌, ◌∙◌, true, List, [], ◌∷◌, string_eq, contains, Member, keys, ok, subst,
  arith, inl, inr, refl,
}
use fused_index_top_k.Graph.Topological.{no_edges, specs_of, add_nodes, look_up, topological_nodes}
use fused_index_top_k.Graph.Topological.Names.{topological_names_total, add_stages_total, AllKnown}
use fused_index_top_k.Graph.Topological.Nodes.{
  stage_ids, member_of_edge, add_nodes-IsUnique, known_names, covered,
}

module _ {V : Type 0} where
  -- Every dependency names a stage of the graph, and some rank falls along the dependencies.
  pub record IsAcyclic (nodes : List (StageNode V)) (rank : String → ℕ) : Type 0 where
    pub known :
        (node : StageNode V) (d : String)
        → Member node nodes
        → contains node.spec.dependencies d ≡ true
        → contains (stage_ids nodes) d ≡ true
    pub falls :
        (node : StageNode V) (d : String)
        → Member node nodes
        → contains node.spec.dependencies d ≡ true
        → rank d < rank node.spec.stage_id

  all_known :
      (names : List String) (nodes : List (StageNode V))
      → ((node : StageNode V) (d : String)
          → Member node nodes
          → contains node.spec.dependencies d ≡ true
          → contains names d ≡ true)
      → AllKnown names (specs_of nodes)
  all_known names [] h = tt
  all_known names (x ∷ nodes) h =
      (λ d m. h x d (inl refl) m, all_known names nodes (λ node d m. h node d (inr m)))

  -- If every dependency names a stage of the graph and a rank falls along the dependencies, then an
  -- order is returned: neither the missing-stage error nor the cycle error is raised, and the loop
  -- ends.
  pub topological_nodes_total :
      (graph : PreparedGraph V) (rank : String → ℕ)
      → IsAcyclic graph.nodes rank
      → (ordered : List (StageNode V)) × (topological_nodes graph ≡ ok ordered)
  unfolding topological_nodes
  topological_nodes_total graph rank h =
      let names = keys (add_nodes graph.nodes []) in
      let known =
        λ (d : String) (m : contains (stage_ids graph.nodes) d ≡ true). known_names graph d ∙ m in
      let (g, built) =
        add_stages_total names (specs_of graph.nodes) no_edges
          (all_known names graph.nodes (λ node d m c. known d (h.known node d m c))) in
      let (l, found) =
        topological_names_total names (specs_of graph.nodes) (add_nodes-IsUnique graph.nodes [] tt)
          (covered graph) rank
          (λ c d e.
            let (node, m, id, dep) = member_of_edge graph.nodes c d e in
            known d (h.known node d m dep))
          (λ c d e.
            let (node, m, id, dep) = member_of_edge graph.nodes c d e in
            subst (λ x. rank d < rank x) id (h.falls node d m dep))
          g built in
      (look_up (add_nodes graph.nodes []) l, ground arith)
