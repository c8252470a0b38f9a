-- ===== src/Graph/Validate/Lineage.antt =====
-- Where the artifacts of a validated graph come from.
use fused_index_top_k.Api.{StageNode, PreparedGraph}
use fused_index_top_k.Base.{
  String, ◌≡◌, sym, subst, Bool, true, false, not, List, [], ◌∷◌, ◌++◌, contains, contains-append,
  anyb, IsUnique, string_eq, eq_iff, ◌==◌, Dict, keys, get, ok, raise_if, raise_if-eq-ok, arith,
  Option-cases, Bool-cases, ◌⊎◌, inl, inr, Member, subset, diff, key_of_none,
}
use fused_index_top_k.Graph.{is_empty, not_executable, consumes_missing, outside_chain}
use fused_index_top_k.Graph.Validate.{
  ancestor_table, ancestors_of, is_unrelated, check_stage, check_stages, validate_graph,
}
use fused_index_top_k.Graph.Validate.Parts.{
  >>-ok, produced, Served, validate_graph-Parts, check_stages-Served, declare_all-keys,
}
use fused_index_top_k.Graph.Validate.Ancestors.{DependsOn, ancestor_table-Sound}
use fused_index_top_k.Graph.Validate.Producers.{declare_all-fresh, declare_all-owner}

anyb-false :
    (p : String → Bool) (xs : List String) (a : String)
    → anyb p xs ≡ false
    → contains xs a ≡ true
    → p a ≡ false
anyb-false p [] a h m = ground arith
anyb-false p (x ∷ xs) a h m = elim (Bool-cases (x == a)) [
  | inl e ↦ subst (λ z. p z ≡ false) ((eq_iff x a).0 e) (ground arith)
  | inr e ↦ anyb-false p xs a (ground arith) (ground arith)
]

module _ {V : Type 0} where
  -- What the loop over the stages has established of each stage.
  check_stages-related :
      (table : Dict (List String)) (producers : Dict String) (available completed : List String)
      → (nodes : List (StageNode V))
      → check_stages table producers available completed nodes ≡ ok tt
      → (node : StageNode V) → Member node nodes
      → anyb (is_unrelated producers (ancestors_of table node.spec.stage_id)) node.spec.consumes
        ≡ false
  unfolding check_stages check_stage
  check_stages-related table producers available completed [] h node m = absurd m
  check_stages-related table producers available completed (x ∷ nodes) h node m =
      let (one, rest) = >>-ok (check_stage table producers available completed x) _ h in
      elim m [
        | inr later ↦
            check_stages-related table producers (available ++ x.spec.produces)
              (completed ++ x.spec.stage_id ∷ []) nodes rest node later
        | inl e ↦
            subst
              (λ (n : StageNode V).
                anyb (is_unrelated producers (ancestors_of table n.spec.stage_id)) n.spec.consumes
                ≡ false)
              (sym e) (related one)
      ]
    where
      related :
          check_stage table producers available completed x ≡ ok tt
          → anyb (is_unrelated producers (ancestors_of table x.spec.stage_id)) x.spec.consumes
            ≡ false
      related one =
          let spec = x.spec in
          let (_, two) =
            >>-ok
              (raise_if (not (subset spec.dependencies completed)) (not_executable spec.stage_id)) _
              one in
          let (_, three) =
            >>-ok
              (raise_if (not (is_empty (diff spec.consumes available)))
                (consumes_missing spec.stage_id))
              _ two in
          let test =
            anyb (is_unrelated producers (ancestors_of table spec.stage_id)) spec.consumes in
          let (four, _) = >>-ok (raise_if test (outside_chain spec.stage_id)) _ three in
          raise_if-eq-ok test (outside_chain spec.stage_id) four

  Served-from :
      (available : List String) (nodes : List (StageNode V)) (node : StageNode V) (a : String)
      → Served available nodes
      → Member node nodes
      → contains node.spec.consumes a ≡ true
      → contains (available ++ produced nodes) a ≡ true
  Served-from available [] node a s m c = absurd m
  Served-from available (x ∷ nodes) node a s (inl e) c = ground (
    arith,
    contains-append available (produced (x ∷ nodes)) a,
    s.0 a (subst (λ (n : StageNode V). contains n.spec.consumes a ≡ true) e c),
  )
  Served-from available (x ∷ nodes) node a s (inr m) c = ground (
    arith,
    Served-from (available ++ x.spec.produces) nodes node a s.1 m c,
    contains-append available (x.spec.produces ++ produced nodes) a,
    contains-append (available ++ x.spec.produces) (produced nodes) a,
    contains-append available x.spec.produces a,
    contains-append x.spec.produces (produced nodes) a,
  )

  -- Each artifact has one source, and a stage depends on the sources of what it consumes.
  pub record HasLineage (initial : List String) (nodes : List (StageNode V)) : Type 0 where
    pub produced_once : IsUnique (produced nodes)
    pub not_initial : (a : String) → contains (produced nodes) a ≡ true → contains initial a ≡ false
    pub sources :
        (node : StageNode V)
        → Member node nodes
        → (a : String) → contains node.spec.consumes a ≡ true
        → (contains initial a ≡ true)
          ⊎ ((source : StageNode V) × Member source nodes
              × (contains source.spec.produces a ≡ true)
              × DependsOn nodes node.spec.stage_id source.spec.stage_id)

  -- When `validate_graph` returns, no artifact is declared by two stages, twice by one stage, or
  -- by a stage and the initial artifacts; and every artifact that a stage consumes is an initial
  -- one or is declared by a stage that the consumer depends on, directly or through others.
  pub validate_graph-HasLineage :
      (graph : PreparedGraph V) (nodes : List (StageNode V))
      → validate_graph graph ≡ ok nodes
      → HasLineage (keys graph.initial_artifacts) nodes
  validate_graph-HasLineage graph nodes valid =
      let parts = validate_graph-Parts graph nodes valid in
      let initial = keys graph.initial_artifacts in
      let table = ancestor_table nodes [] in
      let (once, fresh) = declare_all-fresh initial nodes [] parts.producers parts.declared in
      let served = check_stages-Served table parts.producers initial [] nodes parts.stages in
      record {
        produced_once = once;
        not_initial = λ a m. (fresh a m).1;
        sources = λ node m a c. elim (Option-cases (get parts.producers a)) [
          | inl missing ↦ inl (
              ground (
                arith,
                key_of_none parts.producers a missing,
                declare_all-keys initial nodes [] parts.producers a parts.declared,
                Served-from initial nodes node a served m c,
                contains-append initial (produced nodes) a,
              ))
          | inr (owner, is) ↦
              let related =
                anyb-false (is_unrelated parts.producers (ancestors_of table node.spec.stage_id))
                  node.spec.consumes a
                  (check_stages-related table parts.producers initial [] nodes parts.stages node m)
                  c in
              let above : contains (ancestors_of table node.spec.stage_id) owner ≡ true =
                ground arith in
              let depends =
                ancestor_table-Sound nodes nodes [] (λ n k. k) (λ s b h. ground arith)
                  node.spec.stage_id owner above in
              elim (declare_all-owner initial nodes [] parts.producers a owner parts.declared is) [
                | inl never ↦ cc
                | inr (source, k, same, makes) ↦ inr (
                  source,
                  k,
                  makes,
                  subst (DependsOn nodes node.spec.stage_id) (sym same) depends,
                )
              ]
        ];
      }
