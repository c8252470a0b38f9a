-- ===== src/Graph/Topological/Nodes.antt =====
-- The topological order of a graph's nodes.
use fused_index_top_k.Api.{StageNode, PreparedGraph}
use fused_index_top_k.Base.{
  ◌<◌, String, ◌≡◌, refl, sym, ap, ◌∙◌, ◌⊎◌, true, ◌&&◌, ◌||◌, List, [], ◌∷◌, ◌++◌, ◌==◌, some,
  string_eq, eq_iff, contains, countb, IsUnique, Member, Dict, keys, get, put, get-put,
  contains-put, put-IsUnique, get_of_key, ok, >>=-eq-ok, subst, arith, Bool-cases, inl, inr,
  Option-cases,
}
use fused_index_top_k.Graph.Topological.{
  specs_of, add_nodes, look_up, topological_names, topological_nodes,
}
use fused_index_top_k.Graph.Topological.Counting.{edges}
use fused_index_top_k.Graph.Topological.Placing.{IsOrdered}
use fused_index_top_k.Graph.Topological.Names.{topological_names-IsTopological}

pub countb_pos :
    (d : String) (deps : List String) → contains deps d ≡ true → 0 < countb (λ x. x == d) deps
countb_pos d [] h = ground arith
countb_pos d (x ∷ deps) h = ground (arith, countb_pos d deps)

contains_of_countb :
    (d : String) (deps : List String) → 0 < countb (λ x. x == d) deps → contains deps d ≡ true
contains_of_countb d [] h = absurd (omega arith)
contains_of_countb d (x ∷ deps) h = ground (arith, contains_of_countb d deps)

module _ {V : Type 0} where
  abbrev pub stage_ids : List (StageNode V) → List String
  stage_ids [] = []
  stage_ids (node ∷ nodes) = node.spec.stage_id ∷ stage_ids nodes

  -- Each node stands behind all of its dependencies.
  abbrev pub DependenciesFirst : List String → List (StageNode V) → Type 0
  DependenciesFirst seen [] = Unit
  DependenciesFirst seen (node ∷ nodes) =
      ((d : String) → contains node.spec.dependencies d ≡ true → contains seen d ≡ true)
      × DependenciesFirst (seen ++ node.spec.stage_id ∷ []) nodes

  -- A dependency of a node is an edge, and an edge is a dependency of a node.
  pub edge_of_member :
      (nodes : List (StageNode V)) (node : StageNode V) (d : String)
      → Member node nodes
      → contains node.spec.dependencies d ≡ true
      → 0 < edges (specs_of nodes) node.spec.stage_id d
  edge_of_member [] node d m h = absurd m
  edge_of_member (x ∷ nodes) node d (inl e) h =
      subst (λ (n : StageNode V). 0 < edges (specs_of (n ∷ nodes)) node.spec.stage_id d) e
        (ground (
          arith,
          eq_iff node.spec.stage_id node.spec.stage_id,
          countb_pos d node.spec.dependencies h,
        ))
  edge_of_member (x ∷ nodes) node d (inr m) h = omega (arith, edge_of_member nodes node d m h)

  pub member_of_edge :
      (nodes : List (StageNode V)) (c d : String)
      → 0 < edges (specs_of nodes) c d
      → (node : StageNode V) × Member node nodes
        × (node.spec.stage_id ≡ c)
        × (contains node.spec.dependencies d ≡ true)
  member_of_edge [] c d h = absurd (omega arith)
  member_of_edge (x ∷ nodes) c d h =
      elim (Bool-cases (x.spec.stage_id == c && contains x.spec.dependencies d)) [
        | inl e ↦ (x, inl refl, ground (arith, eq_iff x.spec.stage_id c), ground arith)
        | inr e ↦
            let (node, m, p, q) =
              member_of_edge nodes c d (ground (arith, contains_of_countb d x.spec.dependencies)) in
            (node, inr m, p, q)
      ]

  -- The dictionary of the nodes.
  Entry : List (StageNode V) → Dict (StageNode V) → Type 0
  Entry all d =
      (k : String) (node : StageNode V)
      → get d k ≡ some node
      → (node.spec.stage_id ≡ k) × Member node all

  add_nodes-Entry :
      (all nodes : List (StageNode V)) (d : Dict (StageNode V))
      → ((node : StageNode V) → Member node nodes → Member node all)
      → Entry all d
      → Entry all (add_nodes nodes d)
  unfolding Entry
  add_nodes-Entry all [] d h e = e
  add_nodes-Entry all (x ∷ nodes) d h e =
      add_nodes-Entry all nodes (put d x.spec.stage_id x) (λ node m. h node (inr m))
        (λ k node g. elim (Bool-cases (x.spec.stage_id == k)) [
          | inl here ↦
              let same : x ≡ node = ground (arith, get-put d x.spec.stage_id x k) in
              subst (λ (n : StageNode V). (n.spec.stage_id ≡ k) × Member n all) same
                ((eq_iff x.spec.stage_id k).0 here, h x (inl refl))
          | inr there ↦ e k node (ground (arith, get-put d x.spec.stage_id x k))
        ])

  keys-add_nodes :
      (nodes : List (StageNode V)) (d : Dict (StageNode V)) (c : String)
      → contains (keys (add_nodes nodes d)) c
        ≡ (contains (stage_ids nodes) c || contains (keys d) c)
  keys-add_nodes [] d c = refl
  keys-add_nodes (x ∷ nodes) d c =
      ground (
        arith,
        keys-add_nodes nodes (put d x.spec.stage_id x) c,
        contains-put d x.spec.stage_id x c,
      )

  pub add_nodes-IsUnique :
      (nodes : List (StageNode V)) (d : Dict (StageNode V))
      → IsUnique (keys d)
      → IsUnique (keys (add_nodes nodes d))
  add_nodes-IsUnique [] d u = u
  add_nodes-IsUnique (x ∷ nodes) d u =
      add_nodes-IsUnique nodes (put d x.spec.stage_id x) (put-IsUnique d x.spec.stage_id x u)

  -- Looking up known names gives their nodes, in the same order.
  look_up-ids :
      (all : List (StageNode V)) (d : Dict (StageNode V)) (names : List String)
      → Entry all d
      → ((c : String) → contains names c ≡ true → contains (keys d) c ≡ true)
      → stage_ids (look_up d names) ≡ names
  unfolding Entry
  look_up-ids all d [] e h = refl
  look_up-ids all d (name ∷ names) e h =
      let (node, found) = get_of_key d name (h name (ground (arith, eq_iff name name))) in
      let (id, _) = e name node found in
      let ih = look_up-ids all d names e (λ c m. h c (ground arith)) in
      rw (found, look_up) (cc (id, ih))

  look_up-Member :
      (all : List (StageNode V)) (d : Dict (StageNode V)) (names : List String) (node : StageNode V)
      → Entry all d
      → Member node (look_up d names)
      → Member node all
  unfolding Entry
  look_up-Member all d [] node e m = absurd m
  look_up-Member all d (name ∷ names) node e m = elim (Option-cases (get d name)) [
    | inl missing ↦ look_up-Member all d names node e (rw (missing, look_up) at m)
    | inr (found, is) ↦ elim (head_or_tail found is) [
      | inl eq ↦ subst (λ n. Member n all) (sym eq) (e name found is).1
      | inr later ↦ look_up-Member all d names node e later
    ]
  ]
    where
      head_or_tail :
          (found : StageNode V)
          → get d name ≡ some found
          → (node ≡ found) ⊎ Member node (look_up d names)
      head_or_tail found is = rw (is, look_up) at m

  ordered-DependenciesFirst :
      (all nodes : List (StageNode V)) (seen : List String)
      → ((node : StageNode V) → Member node nodes → Member node all)
      → IsOrdered (specs_of all) seen (stage_ids nodes)
      → DependenciesFirst seen nodes
  ordered-DependenciesFirst all [] seen h o = tt
  ordered-DependenciesFirst all (x ∷ nodes) seen h o = (
    λ d m. o.0 d (edge_of_member all x d (h x (inl refl)) m),
    ordered-DependenciesFirst all nodes (seen ++ x.spec.stage_id ∷ []) (λ node m. h node (inr m))
        o.1,
  )

  -- A graph's nodes in an order that can be executed.
  pub record IsExecutionOrder (nodes ordered : List (StageNode V)) : Type 0 where
    pub members : (node : StageNode V) → Member node ordered → Member node nodes
    pub unique : IsUnique (stage_ids ordered)
    pub same : (c : String) → contains (stage_ids ordered) c ≡ contains (stage_ids nodes) c
    pub dependencies_first : DependenciesFirst [] ordered

  module _ (graph : PreparedGraph V) where
    entries : Entry graph.nodes (add_nodes graph.nodes [])
    entries =
        add_nodes-Entry graph.nodes graph.nodes [] (λ node m. m) (unfold Entry in (λ k node g. cc))

    pub known_names :
        (c : String)
        → contains (keys (add_nodes graph.nodes [])) c ≡ contains (stage_ids graph.nodes) c
    known_names c = ground (arith, keys-add_nodes graph.nodes [] c)

    pub contains_of_member :
        (nodes : List (StageNode V)) (node : StageNode V)
        → Member node nodes
        → contains (stage_ids nodes) node.spec.stage_id ≡ true
    contains_of_member [] node m = absurd m
    contains_of_member (x ∷ nodes) node (inl e) = ground (
      arith,
      ap (λ (n : StageNode V). n.spec.stage_id) e,
      eq_iff x.spec.stage_id node.spec.stage_id,
    )
    contains_of_member (x ∷ nodes) node (inr m) = ground (arith, contains_of_member nodes node m)

    pub covered :
        (c d : String)
        → 0 < edges (specs_of graph.nodes) c d
        → contains (keys (add_nodes graph.nodes [])) c ≡ true
    covered c d h =
        let (node, m, id, _) = member_of_edge graph.nodes c d h in
        known_names c
        ∙ ap (contains (stage_ids graph.nodes)) (sym id)
        ∙ contains_of_member graph.nodes node m

    -- The order that is returned can be executed: it holds nodes of the graph, one for each stage
    -- ID, and every node stands behind all of its dependencies.
    pub topological_nodes-IsExecutionOrder :
        (ordered : List (StageNode V))
        → topological_nodes graph ≡ ok ordered
        → IsExecutionOrder graph.nodes ordered
    unfolding topological_nodes
    topological_nodes-IsExecutionOrder ordered h =
        let d = add_nodes graph.nodes [] in
        let (names, found, done) =
          >>=-eq-ok (topological_names (keys d) (specs_of graph.nodes)) _ h in
        let t =
          topological_names-IsTopological (keys d) (specs_of graph.nodes)
            (add_nodes-IsUnique graph.nodes [] tt) covered names found in
        let eq : look_up d names ≡ ordered = ground arith in
        let ids = look_up-ids graph.nodes d names entries (λ c m. ground (arith, t.same c)) in
        let members = λ (node : StageNode V). look_up-Member graph.nodes d names node entries in
        subst (IsExecutionOrder graph.nodes) eq (record {
          members = members;
          unique = rw ids t.unique;
          same = λ c. rw ids (t.same c ∙ known_names c);
          dependencies_first =
              ordered-DependenciesFirst graph.nodes (look_up d names) [] members
                (rw ids t.in_order);
        })
