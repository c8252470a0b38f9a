-- ===== src/Graph/Execute/Completes.antt =====
-- A validated graph executes: `validate_graph` followed by `execute_prevalidated`.
use fused_index_top_k.Api.{ExecutionContext, ArtifactStore, StageNode, PreparedGraph}
use fused_index_top_k.Base.{
  String, ◌≡◌, refl, sym, ap, ◌∙◌, Bool, true, Option, none, some, List, [], ◌∷◌, ◌++◌, contains,
  diff, contains-append, string_eq, eq_iff, keys, get, ok, arith, Option-cases, Bool-cases, inl,
  inr, Member, key_of_get,
}
use fused_index_top_k.Graph.{is_empty}
use fused_index_top_k.Graph.Topological.Nodes.{stage_ids}
use fused_index_top_k.Graph.Validate.{check_terminal, validate_graph, ancestor_table}
use fused_index_top_k.Graph.Validate.Parts.{
  produced, Served, Parts, validate_graph-Parts, check_stages-Served, declare_all-keys,
}
use fused_index_top_k.Graph.Execute.{
  StageContext, Traced, run_stage, run_within, check_produced, execute_nodes, execute_prevalidated,
  execute_graph,
}
use fused_index_top_k.Graph.Execute.Agreement.{
  and_then_ok, stages_run, execute_prevalidated-same_stages,
}

diff_of_subset :
    (xs ys : List String)
    → ((a : String) → contains xs a ≡ true → contains ys a ≡ true)
    → is_empty (diff xs ys) ≡ true
diff_of_subset [] ys h = refl
diff_of_subset (x ∷ xs) ys h =
    ground (arith, h x, eq_iff x x, diff_of_subset xs ys (λ a m. h a (ground arith)))

-- Every artifact of `names` stands in the store.
abbrev pub Holds : {V : Type 0} → ArtifactStore V → List String → Type 0
Holds store names = (a : String) → contains names a ≡ true → contains (keys store) a ≡ true

module _ {V : Type 0} where
  -- The contract of a stage's callable: on a store with the artifacts that it consumes it returns,
  -- keeps what is in the store, and adds the artifacts that it declares.
  abbrev pub KeepsContract : ExecutionContext → StageNode V → Type 0
  KeepsContract context node =
      (store : ArtifactStore V)
      → Holds store node.spec.consumes
      → (store' : ArtifactStore V) × (node.run context store ≡ some store')
        × Holds store' (keys store)
        × Holds store' node.spec.produces

  -- A stage context that has a label for each node, or none at all.
  abbrev pub Labels : Option (StageContext V) → List (StageNode V) → Type 0
  Labels none nodes = Unit
  Labels (some label_of) nodes =
      (node : StageNode V) → Member node nodes → (label : String) × (label_of node ≡ some label)

  run_within_total :
      (stage_context : Option (StageContext V)) (node : StageNode V)
      → (context : ExecutionContext) (store store' : ArtifactStore V)
      → Labels stage_context (node ∷ [])
      → node.run context store ≡ some store'
      → (run_within stage_context node context store).0 ≡ ok store'
  unfolding run_within run_stage
  run_within_total none node context store store' l h = ground arith
  run_within_total (some label_of) node context store store' l h =
      let (label, is) = l node (inl refl) in ground arith

  check_produced_total :
      (validate : Bool) (node : StageNode V) (store : ArtifactStore V)
      → Holds store node.spec.produces
      → check_produced validate node store ≡ ok store
  unfolding check_produced
  check_produced_total validate node store h =
      ground (arith, diff_of_subset node.spec.produces (keys store) h)

  execute_nodes_total :
      (stage_context : Option (StageContext V)) (validate : Bool) (context : ExecutionContext)
      → (available : List String) (nodes : List (StageNode V)) (store : ArtifactStore V)
      → Served available nodes
      → Holds store available
      → ((node : StageNode V) → Member node nodes → KeepsContract context node)
      → Labels stage_context nodes
      → (final : ArtifactStore V) × ((execute_nodes stage_context validate nodes context store).0
          ≡ ok final)
        × Holds final (keys store)
        × Holds final (produced nodes)
  unfolding execute_nodes
  execute_nodes_total stage_context validate context available [] store served holds keeps labels =
      (store, refl, λ a m. m, λ a m. ground arith)
  execute_nodes_total stage_context validate context available (node ∷ nodes) store served holds
        keeps labels =
      let (store', runs, kept, made) =
        keeps node (inl refl) store (λ a m. holds a (served.0 a m)) in
      let (final, done, kept', made') =
        execute_nodes_total stage_context validate context (available ++ node.spec.produces) nodes
          store' served.1
          (λ a m. elim (Bool-cases (contains available a)) [
            | inl old ↦ kept a (holds a old)
            | inr new ↦ made a (ground (arith, contains-append available node.spec.produces a))
          ])
          (λ n m. keeps n (inr m)) (tail_labels stage_context labels) in
      let first =
        run_within_total stage_context node context store store' (head_labels stage_context labels)
          runs in
      let check : Traced (ArtifactStore V) = (check_produced validate node store', []) in
      (
        final,
        ap (λ (r : Traced (ArtifactStore V)). r.0)
              (and_then_ok (run_within stage_context node context store) _ store' first)
            ∙ ap (λ (r : Traced (ArtifactStore V)). r.0)
                (and_then_ok check _ store' (check_produced_total validate node store' made))
            ∙ done,
        λ a m. kept' a (kept a m),
        λ a m. elim (Bool-cases (contains node.spec.produces a)) [
          | inl here ↦ kept' a (made a here)
          | inr later ↦
              made' a (ground (arith, contains-append node.spec.produces (produced nodes) a))
        ],
      )
    where
      head_labels : (s : Option (StageContext V)) → Labels s (node ∷ nodes) → Labels s (node ∷ [])
      head_labels none l = tt
      head_labels (some label_of) l =
          λ n m. elim m [ inl e ↦ l n (inl e) | inr never ↦ absurd never ]

      tail_labels : (s : Option (StageContext V)) → Labels s (node ∷ nodes) → Labels s nodes
      tail_labels none l = tt
      tail_labels (some label_of) l = λ n m. l n (inr m)

  terminal_produced :
      (graph : PreparedGraph V) (nodes : List (StageNode V)) (parts : Parts graph nodes)
      → contains (keys parts.producers) graph.terminal_artifact ≡ true
  unfolding check_terminal
  terminal_produced graph nodes parts =
      elim (Option-cases (get parts.producers graph.terminal_artifact)) [
        | inl missing ↦ ground (arith, parts.terminal)
        | inr (owner, is) ↦ key_of_get parts.producers graph.terminal_artifact owner is
      ]

  prevalidated_nodes :
      (stage_context : Option (StageContext V)) (nodes : List (StageNode V))
      → (context : ExecutionContext) (store : ArtifactStore V)
      → execute_prevalidated nodes context store stage_context true
        ≡ execute_nodes stage_context true nodes context store
  unfolding execute_prevalidated
  prevalidated_nodes none nodes context store = refl
  prevalidated_nodes (some label_of) nodes context store = refl

  -- A graph that `validate_graph` accepts runs to its end when every stage's callable keeps its
  -- contract (on a store with the artifacts that it consumes it returns, keeps the store's
  -- artifacts and adds those that it declares) and the stage context, if there is one, has a label
  -- for every stage: no stage is started without the artifacts that it consumes, no produced
  -- artifact is reported missing, every stage runs exactly once and in the validated order, and
  -- the terminal artifact stands in the store at the end.
  pub execute_graph_total :
      (graph : PreparedGraph V) (nodes : List (StageNode V)) (context : ExecutionContext)
      → (stage_context : Option (StageContext V)) → validate_graph graph ≡ ok nodes
      → ((node : StageNode V) → Member node nodes → KeepsContract context node)
      → Labels stage_context nodes
      → (final : ArtifactStore V) × ((execute_graph graph context stage_context).0 ≡ ok final)
        × (contains (keys final) graph.terminal_artifact ≡ true)
        × (stages_run (execute_graph graph context stage_context).1 ≡ stage_ids nodes)
  unfolding execute_graph
  execute_graph_total graph nodes context stage_context valid keeps labels =
      let parts = validate_graph-Parts graph nodes valid in
      let initial = keys graph.initial_artifacts in
      let served =
        check_stages-Served (ancestor_table nodes []) parts.producers initial [] nodes
          parts.stages in
      let (final, done, kept, made) =
        execute_nodes_total stage_context true context initial nodes graph.initial_artifacts served
          (λ a m. m) keeps labels in
      let run = execute_prevalidated nodes context graph.initial_artifacts stage_context true in
      let done' : run.0 ≡ ok final =
        ap (λ (r : Traced (ArtifactStore V)). r.0)
          (prevalidated_nodes stage_context nodes context graph.initial_artifacts)
        ∙ done in
      let terminal = terminal_produced graph nodes parts in
      let whole =
        and_then_ok (validate_graph graph, [])
          (λ ns. execute_prevalidated ns context graph.initial_artifacts stage_context true) nodes
          valid in
      (
        final,
        ap (λ (r : Traced (ArtifactStore V)). r.0) whole ∙ done',
        made graph.terminal_artifact (
            sym (
              declare_all-keys initial nodes [] parts.producers graph.terminal_artifact
                parts.declared)
            ∙ terminal),
        ap (λ (r : Traced (ArtifactStore V)). stages_run r.1) whole
            ∙ (execute_prevalidated-same_stages nodes context graph.initial_artifacts final
                stage_context true done').2,
      )
