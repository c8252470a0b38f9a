-- ===== src/Nvtx/Ranges.antt =====
-- `graph_labels` labels every stage that an execution will ask for.
use fused_index_top_k.Api.{StageNode, PreparedGraph, PrefillCase}
use fused_index_top_k.Base.{
  String, ◌≡◌, ◌||◌, some, List, [], ◌∷◌, contains, string_eq, eq_iff, Dict, keys, get, put,
  get-put, contains-put, get_of_key, Result, ok, err, >>=-eq-ok, Member, ℕ, arith, map_err,
}
use fused_index_top_k.Graph.Topological.Nodes.{
  stage_ids, topological_nodes-IsExecutionOrder, contains_of_member,
}
use fused_index_top_k.Graph.Validate.{codes, validate_graph}
use fused_index_top_k.Graph.Validate.Parts.{validate_graph-Parts}
use fused_index_top_k.Nvtx.{
  GraphNvtxLabels, stage_label, pipeline_label, label_stages, graph_labels, stage_range_label,
  invalid_graph,
}
use fused_index_top_k.Nvtx.Labels.{split, split-stage_label}

-- Each entry is the label of its stage.
Labelled : List ℕ → List ℕ → Dict (List ℕ) → Type 0
Labelled v c labels =
    (id : String) (label : List ℕ)
    → get labels id ≡ some label
    → stage_label v c (codes id) ≡ ok label

put-Labelled :
    (v c : List ℕ) (labels : Dict (List ℕ)) (id : String) (label : List ℕ)
    → Labelled v c labels
    → stage_label v c (codes id) ≡ ok label
    → Labelled v c (put labels id label)
unfolding Labelled
put-Labelled v c labels id label all here j l found =
    ground (arith, get-put labels id label j, all j l, eq_iff id j)

map_err-eq-ok :
    {E F A : Type 0} (f : E → F) (r : Result E A) {a : A} → map_err f r ≡ ok a → r ≡ ok a
map_err-eq-ok f (ok a) h = ground arith
map_err-eq-ok f (err e) h = ground arith

module _ {V : Type 0} where
  label_stages-keys :
      (v c : List ℕ) (nodes : List (StageNode V)) (before after : Dict (List ℕ))
      → label_stages v c nodes before ≡ ok after
      → Labelled v c before
      → Labelled v c after
        × ((id : String)
            → contains (keys after) id
              ≡ (contains (stage_ids nodes) id || contains (keys before) id))
  unfolding label_stages
  label_stages-keys v c [] before after h all = grind (arith)
  label_stages-keys v c (node ∷ nodes) before after h all =
      let id = node.spec.stage_id in
      let (label, made, rest) = >>=-eq-ok (stage_label v c (codes id)) _ h in
      let (all', same) =
        label_stages-keys v c nodes (put before id label) after rest
          (put-Labelled v c before id label all made) in
      (all', λ j. ground (arith, same j, contains-put before id label j))

  -- When `graph_labels` returns, the callback of `stage_range_factory` has a label for every node of
  -- the graph, and the label read back is the variant, the case and the stage.
  pub graph_labels-stage_range_label :
      (graph : PreparedGraph V) (case : PrefillCase) (labels : GraphNvtxLabels)
      → graph_labels graph case ≡ ok labels
      → (node : StageNode V) → Member node graph.nodes
      → (label : List ℕ) × (stage_range_label labels node ≡ some label)
        × (split label
            ≡ codes "ITK"
              ∷ codes "STAGE"
              ∷ codes graph.descriptor.plugin_id
              ∷ codes case.case_id
              ∷ codes node.spec.stage_id
              ∷ [])
  unfolding graph_labels stage_range_label Labelled
  graph_labels-stage_range_label graph case labels h node m =
      let v = codes graph.descriptor.plugin_id in
      let c = codes case.case_id in
      let id = node.spec.stage_id in
      let (ordered, valid, rest) = >>=-eq-ok (map_err invalid_graph (validate_graph graph)) _ h in
      let (stages, made, rest2) = >>=-eq-ok (label_stages v c ordered []) _ rest in
      let (whole, _, done) = >>=-eq-ok (pipeline_label v c) _ rest2 in
      let parts =
        validate_graph-Parts graph ordered
          (map_err-eq-ok invalid_graph (validate_graph graph) valid) in
      let order = topological_nodes-IsExecutionOrder graph ordered parts.sorted_nodes in
      let (all, same) = label_stages-keys v c ordered [] stages made (λ j l found. ground arith) in
      let (label, found) =
        get_of_key stages id
          (ground (arith, same id, order.same id, contains_of_member graph graph.nodes node m)) in
      (
        label,
        grind (arith, done, found),
        split-stage_label v c (codes id) label (all id label found),
      )
