-- ===== src/Graph/Validate/Ancestors.antt =====
-- The ancestors that `validate_graph` collects, against the dependency relation.
use fused_index_top_k.Api.{StageNode}
use fused_index_top_k.Base.{
  String, ◌≡◌, refl, subst, true, List, [], ◌∷◌, contains, contains-append, get-put, string_eq,
  eq_iff, ◌==◌, Dict, put, arith, Bool-cases, ◌⊎◌, inl, inr, Member,
}
use fused_index_top_k.Graph.Validate.{ancestor_table, ancestors_of, with_ancestors}

-- A stage depends on another one, directly or through further stages.
pub data DependsOn {V : Type 0} (nodes : List (StageNode V)) : String → String → Type 0 where
  direct :
      {stage dependency : String} (node : StageNode V)
      → Member node nodes
      → node.spec.stage_id ≡ stage
      → contains node.spec.dependencies dependency ≡ true
      → DependsOn nodes stage dependency
  through :
      {stage dependency : String} (middle : String)
      → DependsOn nodes stage middle
      → DependsOn nodes middle dependency
      → DependsOn nodes stage dependency

module _ {V : Type 0} (all : List (StageNode V)) where
  abbrev pub Sound : Dict (List String) → Type 0
  Sound table =
      (stage a : String) → contains (ancestors_of table stage) a ≡ true → DependsOn all stage a

  with_ancestors-cases :
      (table : Dict (List String)) (deps : List String) (a : String)
      → contains (with_ancestors table deps) a ≡ true
      → (d : String) × (contains deps d ≡ true)
        × ((d ≡ a) ⊎ (contains (ancestors_of table d) a ≡ true))
  with_ancestors-cases table [] a h = ground arith
  with_ancestors-cases table (x ∷ deps) a h = elim (Bool-cases (x == a)) [
    | inl e ↦ (x, ground (arith, eq_iff x x), inl ((eq_iff x a).0 e))
    | inr e ↦ elim (Bool-cases (contains (ancestors_of table x) a)) [
      | inl m ↦ (x, ground (arith, eq_iff x x), inr m)
      | inr m ↦
          let (d, known, how) = with_ancestors-cases table deps a (
            ground (arith, contains-append (ancestors_of table x) (with_ancestors table deps) a)) in
          (d, ground arith, how)
    ]
  ]

  node_ancestors :
      (table : Dict (List String)) (node : StageNode V) (a : String)
      → Sound table
      → Member node all
      → contains (with_ancestors table node.spec.dependencies) a ≡ true
      → DependsOn all node.spec.stage_id a
  node_ancestors table node a s m h =
      let (d, known, how) = with_ancestors-cases table node.spec.dependencies a h in
      let step : DependsOn all node.spec.stage_id d = direct node m refl known in
      elim how [
        | inl e ↦ subst (DependsOn all node.spec.stage_id) e step
        | inr above ↦ through d step (s d a above)
      ]

  pub ancestor_table-Sound :
      (nodes : List (StageNode V)) (table : Dict (List String))
      → ((node : StageNode V) → Member node nodes → Member node all)
      → Sound table
      → Sound (ancestor_table nodes table)
  unfolding ancestor_table
  ancestor_table-Sound [] table m s = s
  ancestor_table-Sound (node ∷ nodes) table m s =
      let id = node.spec.stage_id in
      let found = with_ancestors table node.spec.dependencies in
      ancestor_table-Sound nodes (put table id found) (λ n k. m n (inr k))
        (λ stage a h. elim (Bool-cases (id == stage)) [
          | inl here ↦
              subst (λ (t : String). DependsOn all t a) ((eq_iff id stage).0 here)
                (node_ancestors table node a s (m node (inl refl))
                  (ground (arith, get-put table id found stage)))
          | inr there ↦ s stage a (ground (arith, get-put table id found stage))
        ])
