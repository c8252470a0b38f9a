-- ===== src/Graph/Topological.antt =====
-- graph.py, `topological_nodes`: Kahn's algorithm with a sorted ready list.
pub mod Counting
pub mod Release
pub mod Placing
pub mod Names
pub mod Nodes
pub mod Acyclic
use fused_index_top_k.Api.{StageSpec, StageNode, PreparedGraph}
use fused_index_top_k.Base.{
  ℕ, zero, suc, ◌+◌, ◌-◌, String, ◌≡◌, Bool, true, false, not, ◌&&◌, Option, none, some, List, [],
  ◌∷◌, ◌++◌, eqb, if◌then◌else◌, ◌==◌, string_eq, length, filterb, contains, sorted, Dict, keys,
  get, put, Result, ok, err, ◌>>=◌, ◌>>◌, raise_if,
}
use fused_index_top_k.Graph.{GraphError, missing_dependency, cycle, loop_limit, str_leb}

-- The two dictionaries of the algorithm, as functions on the stage IDs.
pub record Edges : Type 0 where
  pub indegree : String → ℕ
  pub children : String → List String

abbrev pub no_edges : Edges
no_edges = record { indegree = λ name. 0; children = λ name. [] }

-- `indegree[stage] += 1; children[dependency].append(stage)`
abbrev pub add_edge : String → String → Edges → Edges
add_edge stage dependency g = record {
  indegree = λ name. if stage == name then suc (g.indegree name) else g.indegree name;
  children = λ name. if dependency == name then g.children name ++ stage ∷ [] else g.children name;
}

unfoldable pub add_dependencies :
    List String → String → List String → Edges → Result GraphError Edges
add_dependencies names stage [] g = ok g
add_dependencies names stage (dependency ∷ rest) g =
    if contains names dependency
    then add_dependencies names stage rest (add_edge stage dependency g)
    else err missing_dependency

unfoldable pub add_stages : List String → List StageSpec → Edges → Result GraphError Edges
add_stages names [] g = ok g
add_stages names (spec ∷ specs) g = do
  g' ← add_dependencies names spec.stage_id spec.dependencies g
  add_stages names specs g'

-- The loop's variables. `indegree` stays at 0 where Python counts on below zero; a stage becomes
-- ready exactly when its count goes from 1 to 0.
pub record Progress : Type 0 where
  pub indegree : String → ℕ
  pub ready : List String

unfoldable pub release_child : String → Progress → Progress
release_child child p = record {
  indegree = λ name. if child == name then p.indegree name - 1 else p.indegree name;
  ready = if eqb (p.indegree child) 1 then sorted str_leb (p.ready ++ child ∷ []) else p.ready;
}

-- `for child in sorted(children[name])`
unfoldable pub release : List String → Progress → Progress
release [] p = p
release (child ∷ rest) p = release rest (release_child child p)

-- The `while ready` loop. Each round places one stage; `none` says that the fuel ran out.
unfoldable pub place : ℕ → (String → List String) → Progress → List String → Option (List String)
place zero children p ordered = elim p.ready [ [] ↦ some ordered | _ ∷ _ ↦ none ]
place (suc fuel) children p ordered = elim p.ready [
  | [] ↦ some ordered
  | name ∷ rest ↦
      place fuel children (release (sorted str_leb (children name)) (record p { ready = rest }))
        (ordered ++ name ∷ [])
]

-- The initial ready list.
abbrev pub initially_ready : List String → Edges → List String
initially_ready names g = sorted str_leb (filterb (λ name. eqb (g.indegree name) 0) names)

unfoldable pub topological_names : List String → List StageSpec → Result GraphError (List String)
topological_names names specs = do
  g ← add_stages names specs no_edges
  let start : Progress = record { indegree = g.indegree; ready = initially_ready names g }
  elim (place (length names) g.children start []) [
    | none ↦ err loop_limit
    | some ordered ↦ do raise_if (not (eqb (length ordered) (length names))) cycle; ok ordered
  ]

module _ {V : Type 0} where
  abbrev pub specs_of : List (StageNode V) → List StageSpec
  specs_of [] = []
  specs_of (node ∷ nodes) = node.spec ∷ specs_of nodes

  -- `{node.spec.stage_id: node for node in graph.nodes}`
  abbrev pub add_nodes : List (StageNode V) → Dict (StageNode V) → Dict (StageNode V)
  add_nodes [] d = d
  add_nodes (node ∷ nodes) d = add_nodes nodes (put d node.spec.stage_id node)

  -- `[nodes[name] for name in ordered]`, for names that stand in the dictionary
  abbrev pub look_up : Dict (StageNode V) → List String → List (StageNode V)
  look_up d [] = []
  look_up d (name ∷ names) = elim (get d name) [
    | none ↦ look_up d names
    | some node ↦ node ∷ look_up d names
  ]

  unfoldable pub topological_nodes : PreparedGraph V → Result GraphError (List (StageNode V))
  topological_nodes graph = do
    let nodes = add_nodes graph.nodes []
    ordered ← topological_names (keys nodes) (specs_of graph.nodes)
    ok (look_up nodes ordered)
