-- ===== src/Graph/Validate.antt =====
-- graph.py, `validate_graph`. Each error names the check that raised and the stage or artifact.
pub mod Parts
pub mod Ancestors
pub mod Producers
pub mod Lineage
pub mod Terminal
pub mod Redundant
use Prim.Native.Char.{code}
use fused_index_top_k.Api.{StageNode, PreparedGraph}
use fused_index_top_k.Base.{
  ℕ, String, ◌≡◌, Bool, true, false, not, ◌&&◌, ◌||◌, Option, none, some, List, [], ◌∷◌, ◌++◌, eqb,
  leb, if◌then◌else◌, ◌==◌, string_eq, length, filterb, anyb, contains, subset, diff, inter,
  frozenset, Dict, keys, get, put, Result, ok, err, ◌>>=◌, ◌>>◌, raise_if, map_err,
}
use fused_index_top_k.Graph.{
  GraphError, unsafe_plugin_id, duplicate_stage_id, unsafe_stage_id, produced_twice, not_executable,
  consumes_missing, outside_chain, unknown_semantics, terminal_never_produced, uncovered_semantics,
  dead_comparable, is_empty,
}
use fused_index_top_k.Graph.Topological.{topological_nodes}
use fused_index_top_k.Graph.Topological.Nodes.{stage_ids}

abbrev pub codes : String → List ℕ
codes String.[] = []
codes (String.◌∷◌ c s) = code c ∷ codes s

-- `[a-z]` and `[a-z0-9_.-]`
abbrev pub is_lower : ℕ → Bool
is_lower c = leb b'a' c && leb c b'z'

abbrev pub is_id_char : ℕ → Bool
is_id_char c = is_lower c || (leb b'0' c && leb c b'9') || eqb c b'_' || eqb c b'.' || eqb c b'-'

-- `_SAFE_ID.fullmatch`
abbrev pub all_id_chars : List ℕ → Bool
all_id_chars [] = true
all_id_chars (c ∷ cs) = is_id_char c && all_id_chars cs

abbrev pub safe_codes : List ℕ → Bool
safe_codes [] = false
safe_codes (c ∷ cs) = is_lower c && all_id_chars cs

unfoldable pub safe_id : String → Bool
safe_id s = safe_codes (codes s)

-- `ancestors[name]`; a stage's dependencies stand before it
abbrev pub ancestors_of : Dict (List String) → String → List String
ancestors_of table name = elim (get table name) [ none ↦ [] | some names ↦ names ]

-- `direct | {ancestor for dependency in direct for ancestor in ancestors[dependency]}`
abbrev pub with_ancestors : Dict (List String) → List String → List String
with_ancestors table [] = []
with_ancestors table (d ∷ deps) = (d ∷ ancestors_of table d) ++ with_ancestors table deps

-- `declared_producers`, one stage's artifacts and then all stages'
unfoldable pub declare_produced :
    List String → String → List String → Dict String → Result GraphError (Dict String)
declare_produced initial stage [] producers = ok producers
declare_produced initial stage (artifact ∷ produced) producers =
    if contains (keys producers) artifact || contains initial artifact
    then err (produced_twice artifact)
    else declare_produced initial stage produced (put producers artifact stage)

-- An artifact whose producer is no ancestor of the stage.
abbrev pub is_unrelated : Dict String → List String → String → Bool
is_unrelated producers ancestors artifact = elim (get producers artifact) [
  | none ↦ false
  | some owner ↦ not (contains ancestors owner)
]

abbrev known_semantics : List String
known_semantics = "indexer" ∷ "topk" ∷ "output" ∷ []

abbrev pub comparable : List String
comparable = "indexer" ∷ "topk" ∷ []

unfoldable pub first_unsafe : List String → Result GraphError (Unit {0})
first_unsafe [] = ok tt
first_unsafe (id ∷ ids) = do raise_if (not (safe_id id)) (unsafe_stage_id id); first_unsafe ids

module _ {V : Type 0} where
  unfoldable pub ancestor_table : List (StageNode V) → Dict (List String) → Dict (List String)
  ancestor_table [] table = table
  ancestor_table (node ∷ nodes) table =
      ancestor_table nodes
        (put table node.spec.stage_id (with_ancestors table node.spec.dependencies))

  unfoldable pub declare_all :
      List String → List (StageNode V) → Dict String → Result GraphError (Dict String)
  declare_all initial [] producers = ok producers
  declare_all initial (node ∷ nodes) producers = do
    producers' ← declare_produced initial node.spec.stage_id node.spec.produces producers
    declare_all initial nodes producers'

  -- One round of the loop over the ordered stages.
  unfoldable pub check_stage :
      Dict (List String)
      → Dict String
      → List String
      → List String
      → StageNode V
      → Result GraphError (Unit {0})
  check_stage table producers available completed node = do
    raise_if (not (subset node.spec.dependencies completed)) (not_executable node.spec.stage_id)
    raise_if (not (is_empty (diff node.spec.consumes available)))
        (consumes_missing node.spec.stage_id)
    raise_if
        (anyb (is_unrelated producers (ancestors_of table node.spec.stage_id)) node.spec.consumes)
        (outside_chain node.spec.stage_id)
    raise_if (not (is_empty (diff node.spec.semantic_ops known_semantics)))
        (unknown_semantics node.spec.stage_id)

  unfoldable pub check_stages :
      Dict (List String)
      → Dict String
      → List String
      → List String
      → List (StageNode V)
      → Result GraphError (Unit {0})
  check_stages table producers available completed [] = ok tt
  check_stages table producers available completed (node ∷ nodes) = do
    check_stage table producers available completed node
    check_stages table producers (available ++ node.spec.produces)
        (completed ++ node.spec.stage_id ∷ []) nodes

  abbrev pub semantics_within : List String → List (StageNode V) → List String
  semantics_within closure [] = []
  semantics_within closure (node ∷ nodes) =
      let rest = semantics_within closure nodes in
      if contains closure node.spec.stage_id then node.spec.semantic_ops ++ rest else rest

  -- `dead_comparable`: comparable work outside the terminal closure
  abbrev pub is_dead : List String → StageNode V → Bool
  is_dead closure node =
      not (contains closure node.spec.stage_id) && anyb (contains node.spec.semantic_ops) comparable

  -- The checks on the terminal artifact.
  unfoldable pub check_terminal :
      String → Dict (List String) → Dict String → List (StageNode V) → Result GraphError (Unit {0})
  check_terminal terminal table producers ordered = elim (get producers terminal) [
    | none ↦ err (terminal_never_produced terminal)
    | some owner ↦
        let closure = owner ∷ ancestors_of table owner in
        do
          raise_if (not (subset comparable (semantics_within closure ordered))) uncovered_semantics
          raise_if (anyb (is_dead closure) ordered) dead_comparable
  ]

  unfoldable pub validate_graph : PreparedGraph V → Result GraphError (List (StageNode V))
  validate_graph graph = do
    raise_if (not (safe_id graph.descriptor.plugin_id)) unsafe_plugin_id
    let ids = stage_ids graph.nodes
    raise_if (not (eqb (length ids) (length (frozenset ids)))) duplicate_stage_id
    first_unsafe ids
    ordered ← topological_nodes graph
    let table = ancestor_table ordered []
    let initial = keys graph.initial_artifacts
    producers ← declare_all initial ordered []
    check_stages table producers initial [] ordered
    check_terminal graph.terminal_artifact table producers ordered
    ok ordered
