-- ===== src/Graph/Validate/Parts.antt =====
-- What each pass of `validate_graph` has established when it returns.
use fused_index_top_k.Api.{StageNode, PreparedGraph}
use fused_index_top_k.Base.{
  String, ◌≡◌, refl, subst, true, not, ◌||◌, List, [], ◌∷◌, ◌++◌, contains, subset, diff,
  contains-append, contains-put, string_eq, eq_iff, eqb, length, frozenset, Dict, keys, put, Result,
  ok, err, ◌>>◌, >>=-eq-ok, raise_if, raise_if-eq-ok, arith,
}
use fused_index_top_k.Graph.{
  is_empty, unsafe_plugin_id, duplicate_stage_id, not_executable, consumes_missing,
}
use fused_index_top_k.Graph.Topological.{topological_nodes}
use fused_index_top_k.Graph.Topological.Nodes.{stage_ids}
use fused_index_top_k.Graph.Validate.{
  ancestor_table, declare_produced, declare_all, check_stage, check_stages, check_terminal,
  validate_graph, safe_id, first_unsafe,
}

pub >>-ok :
    {E B : Type 0} (m : Result E (Unit {0})) (k : Result E B) {b : B}
    → (m >> k) ≡ ok b
    → (m ≡ ok tt) × (k ≡ ok b)
>>-ok (ok u) k h = (refl, h)
>>-ok (err e) k h = cc

diff_empty :
    (xs ys : List String) (a : String)
    → is_empty (diff xs ys) ≡ true
    → contains xs a ≡ true
    → contains ys a ≡ true
diff_empty [] ys a h m = ground arith
diff_empty (x ∷ xs) ys a h m = ground (arith, diff_empty xs ys a, eq_iff x a)

pub declare_produced-keys :
    (initial : List String) (stage : String) (artifacts : List String)
    → (before after : Dict String) (a : String)
    → declare_produced initial stage artifacts before ≡ ok after
    → contains (keys after) a ≡ (contains (keys before) a || contains artifacts a)
unfolding declare_produced
declare_produced-keys initial stage [] before after a h = ground arith
declare_produced-keys initial stage (x ∷ artifacts) before after a h = ground (
  arith,
  declare_produced-keys initial stage artifacts (put before x stage) after a,
  contains-put before x stage a,
)

module _ {V : Type 0} where
  -- All artifacts that a list of stages declares.
  abbrev pub produced : List (StageNode V) → List String
  produced [] = []
  produced (node ∷ nodes) = node.spec.produces ++ produced nodes

  -- Each stage consumes artifacts that are available at the start or produced before it.
  abbrev pub Served : List String → List (StageNode V) → Type 0
  Served available [] = Unit
  Served available (node ∷ nodes) =
      ((a : String) → contains node.spec.consumes a ≡ true → contains available a ≡ true)
      × Served (available ++ node.spec.produces) nodes

  pub record Parts (graph : PreparedGraph V) (nodes : List (StageNode V)) : Type 0 where
    pub sorted_nodes : topological_nodes graph ≡ ok nodes
    pub producers : Dict String
    pub declared : declare_all (keys graph.initial_artifacts) nodes [] ≡ ok producers
    pub stages :
        check_stages (ancestor_table nodes []) producers (keys graph.initial_artifacts) [] nodes
        ≡ ok tt
    pub terminal :
        check_terminal graph.terminal_artifact (ancestor_table nodes []) producers nodes ≡ ok tt

  pub validate_graph-Parts :
      (graph : PreparedGraph V) (nodes : List (StageNode V))
      → validate_graph graph ≡ ok nodes
      → Parts graph nodes
  unfolding validate_graph
  validate_graph-Parts graph nodes h =
      let ids = stage_ids graph.nodes in
      let initial = keys graph.initial_artifacts in
      let (_, h1) =
        >>-ok (raise_if (not (safe_id graph.descriptor.plugin_id)) unsafe_plugin_id) _ h in
      let (_, h2) =
        >>-ok (raise_if (not (eqb (length ids) (length (frozenset ids)))) duplicate_stage_id) _
          h1 in
      let (_, h3) = >>-ok (first_unsafe ids) _ h2 in
      let (ordered, topological, h4) = >>=-eq-ok (topological_nodes graph) _ h3 in
      let table = ancestor_table ordered [] in
      let (producers, declared, h5) = >>=-eq-ok (declare_all initial ordered []) _ h4 in
      let (stages, h6) = >>-ok (check_stages table producers initial [] ordered) _ h5 in
      let (terminal, h7) =
        >>-ok (check_terminal graph.terminal_artifact table producers ordered) _ h6 in
      let same : ordered ≡ nodes = cc in
      subst (Parts graph) same (record {
        sorted_nodes = topological;
        producers = producers;
        declared = declared;
        stages = stages;
        terminal = terminal;
      })

  pub check_stages-Served :
      (table : Dict (List String)) (producers : Dict String) (available completed : List String)
      → (nodes : List (StageNode V))
      → check_stages table producers available completed nodes ≡ ok tt
      → Served available nodes
  unfolding check_stages check_stage
  check_stages-Served table producers available completed [] h = tt
  check_stages-Served table producers available completed (node ∷ nodes) h =
      let (one, rest) = >>-ok (check_stage table producers available completed node) _ h in
      let spec = node.spec in
      let (_, one') =
        >>-ok (raise_if (not (subset spec.dependencies completed)) (not_executable spec.stage_id)) _
          one in
      let test = not (is_empty (diff spec.consumes available)) in
      let (consumes, _) = >>-ok (raise_if test (consumes_missing spec.stage_id)) _ one' in
      (
        λ a m.
            diff_empty node.spec.consumes available a
              (ground (arith, raise_if-eq-ok test (consumes_missing spec.stage_id) consumes)) m,
        check_stages-Served table producers (available ++ spec.produces)
            (completed ++ spec.stage_id ∷ []) nodes rest,
      )

  pub declare_all-keys :
      (initial : List String) (nodes : List (StageNode V)) (before after : Dict String) (a : String)
      → declare_all initial nodes before ≡ ok after
      → contains (keys after) a ≡ (contains (keys before) a || contains (produced nodes) a)
  unfolding declare_all
  declare_all-keys initial [] before after a h = ground arith
  declare_all-keys initial (node ∷ nodes) before after a h =
      let (middle, first, rest) =
        >>=-eq-ok (declare_produced initial node.spec.stage_id node.spec.produces before) _ h in
      ground (
        arith,
        declare_produced-keys initial node.spec.stage_id node.spec.produces before middle a first,
        declare_all-keys initial nodes middle after a rest,
        contains-append node.spec.produces (produced nodes) a,
      )
