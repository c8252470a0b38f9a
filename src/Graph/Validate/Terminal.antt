-- ===== src/Graph/Validate/Terminal.antt =====
-- The terminal artifact of a validated graph: the last checks of `validate_graph`.
use fused_index_top_k.Api.{StageNode, PreparedGraph}
use fused_index_top_k.Base.{
  String, ◌≡◌, refl, sym, ap, ◌∙◌, subst, true, false, ◌&&◌, none, some, List, [], ◌∷◌, contains,
  contains-append, anyb, string_eq, eq_iff, ◌==◌, Dict, keys, get, ok, arith, Option-cases,
  Bool-cases, ◌⊎◌, inl, inr, Member, subset, subset-contains,
}
use fused_index_top_k.Graph.Validate.{
  ancestor_table, ancestors_of, comparable, semantics_within, is_dead, check_terminal,
  validate_graph,
}
use fused_index_top_k.Graph.Validate.Parts.{Parts, validate_graph-Parts}
use fused_index_top_k.Graph.Validate.Producers.{declare_all-owner}
use fused_index_top_k.Graph.Validate.Ancestors.{DependsOn, ancestor_table-Sound}

module _ {V : Type 0} where
  semantics_within-cases :
      (closure : List String) (nodes : List (StageNode V)) (op : String)
      → contains (semantics_within closure nodes) op ≡ true
      → (node : StageNode V) × Member node nodes
        × (contains closure node.spec.stage_id ≡ true)
        × (contains node.spec.semantic_ops op ≡ true)
  semantics_within-cases closure [] op h = ground arith
  semantics_within-cases closure (x ∷ nodes) op h =
      elim (Bool-cases (contains closure x.spec.stage_id && contains x.spec.semantic_ops op)) [
        | inl e ↦ (x, inl refl, ground arith, ground arith)
        | inr e ↦
            let (node, m, p, q) = semantics_within-cases closure nodes op (
              ground
                (arith, contains-append x.spec.semantic_ops (semantics_within closure nodes) op)) in
            (node, inr m, p, q)
      ]

  none_dead :
      (closure : List String) (nodes : List (StageNode V)) (node : StageNode V) (op : String)
      → anyb (is_dead closure) nodes ≡ false
      → Member node nodes
      → contains comparable op ≡ true
      → contains node.spec.semantic_ops op ≡ true
      → contains closure node.spec.stage_id ≡ true
  none_dead closure [] node op h m c s = absurd m
  none_dead closure (x ∷ nodes) node op h (inl e) c s =
      live (subst (λ (n : StageNode V). is_dead closure n ≡ false) (sym e) (ground arith))
    where
      live : is_dead closure node ≡ false → contains closure node.spec.stage_id ≡ true
      live d = ground (arith, eq_iff "indexer" op, eq_iff "topk" op)
  none_dead closure (x ∷ nodes) node op h (inr m) c s =
      none_dead closure nodes node op (ground arith) m c s

  -- A stage's output reaches the stage `owner`.
  abbrev pub Contributes : List (StageNode V) → String → StageNode V → Type 0
  Contributes nodes owner node =
      (owner ≡ node.spec.stage_id) ⊎ DependsOn nodes owner node.spec.stage_id

  pub record HasTerminal (terminal : String) (nodes : List (StageNode V)) : Type 0 where
    pub owner : StageNode V
    pub owner_runs : Member owner nodes
    pub owner_produces : contains owner.spec.produces terminal ≡ true
    pub covered :
        (op : String)
        → contains comparable op ≡ true
        → (node : StageNode V) × Member node nodes
          × Contributes nodes owner.spec.stage_id node
          × (contains node.spec.semantic_ops op ≡ true)
    pub none_beside :
        (node : StageNode V) (op : String)
        → Member node nodes
        → contains comparable op ≡ true
        → contains node.spec.semantic_ops op ≡ true
        → Contributes nodes owner.spec.stage_id node

  closure-Contributes :
      (nodes : List (StageNode V)) (owner : StageNode V) (node : StageNode V)
      → contains
          (owner.spec.stage_id ∷ ancestors_of (ancestor_table nodes []) owner.spec.stage_id)
          node.spec.stage_id
        ≡ true
      → Contributes nodes owner.spec.stage_id node
  closure-Contributes nodes owner node h =
      elim (Bool-cases (owner.spec.stage_id == node.spec.stage_id)) [
        | inl e ↦ inl ((eq_iff owner.spec.stage_id node.spec.stage_id).0 e)
        | inr e ↦ inr (
            ancestor_table-Sound nodes nodes [] (λ n m. m) (λ s a c. ground arith)
              owner.spec.stage_id node.spec.stage_id (ground arith))
      ]

  terminal_checks :
      (terminal : String) (table : Dict (List String)) (producers : Dict String)
      → (nodes : List (StageNode V)) (owner : String)
      → check_terminal terminal table producers nodes ≡ ok tt
      → get producers terminal ≡ some owner
      → (subset comparable (semantics_within (owner ∷ ancestors_of table owner) nodes) ≡ true)
        × (anyb (is_dead (owner ∷ ancestors_of table owner)) nodes ≡ false)
  unfolding check_terminal
  terminal_checks terminal table producers nodes owner h g = (ground arith, ground arith)

  terminal_owned :
      (graph : PreparedGraph V) (nodes : List (StageNode V)) (parts : Parts graph nodes)
      → get parts.producers graph.terminal_artifact ≡ none
      → ⊥
  unfolding check_terminal
  terminal_owned graph nodes parts missing = ground (arith, parts.terminal)

  -- When `validate_graph` returns, a stage of the graph declares the terminal artifact; indexer
  -- and topk work are each declared by that stage or by one that it depends on; and no other
  -- stage declares indexer or topk work.
  pub validate_graph-HasTerminal :
      (graph : PreparedGraph V) (nodes : List (StageNode V))
      → validate_graph graph ≡ ok nodes
      → HasTerminal graph.terminal_artifact nodes
  validate_graph-HasTerminal graph nodes valid =
      let parts = validate_graph-Parts graph nodes valid in
      let terminal = graph.terminal_artifact in
      let table = ancestor_table nodes [] in
      let initial = keys graph.initial_artifacts in
      elim (Option-cases (get parts.producers terminal)) [
        | inl missing ↦ absurd (terminal_owned graph nodes parts missing)
        | inr (name, is) ↦
            elim (declare_all-owner initial nodes [] parts.producers terminal name parts.declared
              is) [
                | inl never ↦ cc
                | inr (owner, m, same, makes) ↦
                    let (all_covered, all_live) =
                      terminal_checks terminal table parts.producers nodes owner.spec.stage_id
                        parts.terminal (is ∙ ap (λ (t : String). some t) (sym same)) in
                    let closure = owner.spec.stage_id ∷ ancestors_of table owner.spec.stage_id in
                    record {
                      owner = owner;
                      owner_runs = m;
                      owner_produces = makes;
                      covered = λ op c.
                          let (node, k, inside, works) = semantics_within-cases closure nodes op (
                            subset-contains comparable (semantics_within closure nodes) op
                              all_covered c) in
                          (node, k, closure-Contributes nodes owner node inside, works);
                      none_beside = λ node op k c works.
                          closure-Contributes nodes owner node
                            (none_dead closure nodes node op all_live k c works);
                    }
              ]
      ]
