-- ===== src/Graph/Validate/Redundant.antt =====
-- The check of `validate_graph` that a stage's dependencies are completed.
use fused_index_top_k.Api.{StageNode, StageSpec, PreparedGraph}
use fused_index_top_k.Base.{
  String, ◌≡◌, refl, not, List, [], ◌∷◌, ◌++◌, contains-subset, string_eq, eqb, length, frozenset,
  Dict, keys, put, Result, ok, err, ◌>>=◌, raise_if, arith, ◌⊎◌, inl, inr,
}
use fused_index_top_k.Graph.{not_executable, unsafe_plugin_id, duplicate_stage_id}
use fused_index_top_k.Graph.Topological.{
  add_dependencies, add_stages, no_edges, topological_names, topological_nodes, Edges, add_nodes,
  specs_of, add_edge,
}
use fused_index_top_k.Graph.Topological.Nodes.{
  stage_ids, DependenciesFirst, topological_nodes-IsExecutionOrder,
}
use fused_index_top_k.Graph.Validate.{
  safe_id, first_unsafe, ancestor_table, declare_produced, declare_all, check_stage, check_stages,
  check_terminal, validate_graph,
}

pub >>=-err :
    {E A B : Type 0} (m : Result E A) (f : A → Result E B) {e : E}
    → (m >>= f) ≡ err e
    → (m ≡ err e) ⊎ ((a : A) × (m ≡ ok a) × (f a ≡ err e))
>>=-err (ok a) f h = inr (a, refl, h)
>>=-err (err e) f h = inl (cc)

first_unsafe_never :
    (ids : List String) (id : String) → first_unsafe ids ≡ err (not_executable id) → ⊥
unfolding first_unsafe
first_unsafe_never [] id h = ground arith
first_unsafe_never (x ∷ ids) id h = ground (arith, first_unsafe_never ids id)

declare_produced_never :
    (initial : List String) (stage : String) (artifacts : List String) (before : Dict String)
    → (id : String) → declare_produced initial stage artifacts before ≡ err (not_executable id)
    → ⊥
unfolding declare_produced
declare_produced_never initial stage [] before id h = ground arith
declare_produced_never initial stage (x ∷ artifacts) before id h =
    ground (arith, declare_produced_never initial stage artifacts (put before x stage) id)

add_dependencies_never :
    (names : List String) (stage : String) (deps : List String) (g : Edges) (id : String)
    → add_dependencies names stage deps g ≡ err (not_executable id)
    → ⊥
unfolding add_dependencies
add_dependencies_never names stage [] g id h = ground arith
add_dependencies_never names stage (d ∷ deps) g id h =
    ground (arith, add_dependencies_never names stage deps (add_edge stage d g) id)

add_stages_never :
    (names : List String) (specs : List StageSpec) (g : Edges) (id : String)
    → add_stages names specs g ≡ err (not_executable id)
    → ⊥
unfolding add_stages
add_stages_never names [] g id h = ground arith
add_stages_never names (spec ∷ specs) g id h =
    elim (>>=-err (add_dependencies names spec.stage_id spec.dependencies g) _ h) [
      | inl e ↦ add_dependencies_never names spec.stage_id spec.dependencies g id e
      | inr (g', is, e) ↦ add_stages_never names specs g' id e
    ]

topological_names_never :
    (names : List String) (specs : List StageSpec) (id : String)
    → topological_names names specs ≡ err (not_executable id)
    → ⊥
unfolding topological_names
topological_names_never names specs id h = elim (>>=-err (add_stages names specs no_edges) _ h) [
  | inl e ↦ add_stages_never names specs no_edges id e
  | inr (g, is, e) ↦ ground arith
]

module _ {V : Type 0} where
  declare_all_never :
      (initial : List String) (nodes : List (StageNode V)) (before : Dict String) (id : String)
      → declare_all initial nodes before ≡ err (not_executable id)
      → ⊥
  unfolding declare_all
  declare_all_never initial [] before id h = ground arith
  declare_all_never initial (node ∷ nodes) before id h =
      elim (>>=-err (declare_produced initial node.spec.stage_id node.spec.produces before) _ h) [
        | inl e ↦ declare_produced_never initial node.spec.stage_id node.spec.produces before id e
        | inr (middle, is, e) ↦ declare_all_never initial nodes middle id e
      ]

  check_stages_never :
      (table : Dict (List String)) (producers : Dict String) (available completed : List String)
      → (nodes : List (StageNode V)) (id : String) → DependenciesFirst completed nodes
      → check_stages table producers available completed nodes ≡ err (not_executable id)
      → ⊥
  unfolding check_stages check_stage
  check_stages_never table producers available completed [] id d h = ground arith
  check_stages_never table producers available completed (x ∷ nodes) id d h =
      elim (>>=-err (check_stage table producers available completed x) _ h) [
        | inl e ↦ ground (arith, contains-subset x.spec.dependencies completed d.0)
        | inr (u, is, e) ↦
            check_stages_never table producers (available ++ x.spec.produces)
              (completed ++ x.spec.stage_id ∷ []) nodes id d.1 e
      ]

  check_terminal_never :
      (terminal : String) (table : Dict (List String)) (producers : Dict String)
      → (nodes : List (StageNode V)) (id : String)
      → check_terminal terminal table producers nodes ≡ err (not_executable id)
      → ⊥
  unfolding check_terminal
  check_terminal_never terminal table producers nodes id h = ground arith

  -- The error "is not topologically executable" is never raised, whatever the graph: the order
  -- that the check runs over has every stage behind its dependencies.
  pub validate_graph_never_not_executable :
      (graph : PreparedGraph V) (id : String) → ¬ (validate_graph graph ≡ err (not_executable id))
  unfolding validate_graph topological_nodes
  validate_graph_never_not_executable graph id h =
      let ids = stage_ids graph.nodes in
      let initial = keys graph.initial_artifacts in
      elim (>>=-err (raise_if (not (safe_id graph.descriptor.plugin_id)) unsafe_plugin_id) _ h) [
        | inl e ↦ ground arith
        | inr (u, is, h1) ↦
            elim (>>=-err
              (raise_if (not (eqb (length ids) (length (frozenset ids)))) duplicate_stage_id) _
              h1) [
                | inl e ↦ ground arith
                | inr (u1, is1, h2) ↦ elim (>>=-err (first_unsafe ids) _ h2) [
                  | inl e ↦ first_unsafe_never ids id e
                  | inr (u2, is2, h3) ↦ elim (>>=-err (topological_nodes graph) _ h3) [
                    | inl e ↦
                        elim (>>=-err
                          (topological_names (keys (add_nodes graph.nodes []))
                            (specs_of graph.nodes))
                          _ e) [
                            | inl e' ↦
                                topological_names_never (keys (add_nodes graph.nodes []))
                                  (specs_of graph.nodes) id e'
                            | inr (names, named, never) ↦ cc
                          ]
                    | inr (nodes, order, h4) ↦ elim (>>=-err (declare_all initial nodes []) _ h4) [
                      | inl e ↦ declare_all_never initial nodes [] id e
                      | inr (producers, is4, h5) ↦
                          elim (>>=-err
                            (check_stages (ancestor_table nodes []) producers initial [] nodes) _
                            h5) [
                              | inl e ↦
                                  check_stages_never (ancestor_table nodes []) producers initial []
                                    nodes id
                                    (topological_nodes-IsExecutionOrder graph nodes
                                      order).dependencies_first
                                    e
                              | inr (u5, is5, h6) ↦
                                  elim (>>=-err
                                    (check_terminal graph.terminal_artifact
                                      (ancestor_table nodes []) producers nodes)
                                    _ h6) [
                                      | inl e ↦
                                          check_terminal_never graph.terminal_artifact
                                            (ancestor_table nodes []) producers nodes id e
                                      | inr (u6, is6, never) ↦ cc
                                    ]
                            ]
                    ]
                  ]
                ]
              ]
      ]
