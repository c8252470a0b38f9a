-- ===== src/Graph/Execute.antt =====
-- graph.py, `execute_prevalidated` and `execute_graph`. A stage context is a factory of profiler
-- ranges (`nvtx.stage_range_factory`): it gives the label of a node, or raises when it has none. The
-- trace of an execution lists the pushes and pops of the ranges and the stages that ran.
pub mod Ranges
pub mod Agreement
pub mod Completes
use fused_index_top_k.Api.{ExecutionContext, ArtifactStore, StageNode, PreparedGraph}
use fused_index_top_k.Base.{
  ℕ, String, Bool, true, false, not, Option, none, some, List, [], ◌∷◌, ◌++◌, string_eq, subset,
  diff, Dict, keys, Result, ok, err, ◌>>=◌, ◌>>◌, raise_if, if◌then◌else◌,
}
use fused_index_top_k.Graph.{GraphError, missing_label, stage_raised, not_produced, is_empty}
use fused_index_top_k.Graph.Validate.{validate_graph}

pub data Event : Type 0 where
  push : String → Event
  pop : Event
  ran : String → Event

-- The outcome of an execution, with its trace; the trace outlives an exception.
abbrev pub Traced : Type 0 → Type 0
Traced A = Result GraphError A × List Event

abbrev pub StageContext : Type 0 → Type 0
StageContext V = StageNode V → Option String

-- A sequence of two parts; an exception of the first one skips the second.
abbrev pub and_then : {A B : Type 0} → Traced A → (A → Traced B) → Traced B
and_then (ok a, trace) f = let (result, later) = f a in (result, trace ++ later)
and_then (err e, trace) f = (err e, trace)

module _ {V : Type 0} where
  -- `node.run(context, artifacts)`
  unfoldable pub run_stage :
      StageNode V → ExecutionContext → ArtifactStore V → Traced (ArtifactStore V)
  run_stage node context artifacts = elim (node.run context artifacts) [
    | none ↦ (err (stage_raised node.spec.stage_id), ran node.spec.stage_id ∷ [])
    | some artifacts' ↦ (ok artifacts', ran node.spec.stage_id ∷ [])
  ]

  -- `with manager: node.run(context, artifacts)`; the range is popped on every path
  unfoldable pub run_within :
      Option (StageContext V)
      → StageNode V
      → ExecutionContext
      → ArtifactStore V
      → Traced (ArtifactStore V)
  run_within none node context artifacts = run_stage node context artifacts
  run_within (some label_of) node context artifacts = elim (label_of node) [
    | none ↦ (err (missing_label node.spec.stage_id), [])
    | some label ↦
        let (result, trace) = run_stage node context artifacts in
        (result, push label ∷ (trace ++ pop ∷ []))
  ]

  -- `if validate_produced: missing = set(node.spec.produces) - set(artifacts)`
  unfoldable pub check_produced :
      Bool → StageNode V → ArtifactStore V → Result GraphError (ArtifactStore V)
  check_produced validate node artifacts = do
    raise_if (if validate then not (is_empty (diff node.spec.produces (keys artifacts))) else false)
        (not_produced node.spec.stage_id)
    ok artifacts

  unfoldable pub execute_nodes :
      Option (StageContext V)
      → Bool
      → List (StageNode V)
      → ExecutionContext
      → ArtifactStore V
      → Traced (ArtifactStore V)
  execute_nodes stage_context validate [] context artifacts = (ok artifacts, [])
  execute_nodes stage_context validate (node ∷ nodes) context artifacts =
      and_then (run_within stage_context node context artifacts) (λ artifacts'.
        and_then (check_produced validate node artifacts', [])
          (λ checked. execute_nodes stage_context validate nodes context checked))

  -- The measured path: no context and no check.
  unfoldable pub execute_plain :
      List (StageNode V) → ExecutionContext → ArtifactStore V → Traced (ArtifactStore V)
  execute_plain [] context artifacts = (ok artifacts, [])
  execute_plain (node ∷ nodes) context artifacts =
      and_then (run_stage node context artifacts) (execute_plain nodes context)

  unfoldable pub execute_prevalidated :
      List (StageNode V)
      → ExecutionContext
      → ArtifactStore V
      → Option (StageContext V)
      → Bool
      → Traced (ArtifactStore V)
  execute_prevalidated nodes context artifacts none false = execute_plain nodes context artifacts
  execute_prevalidated nodes context artifacts none true =
      execute_nodes none true nodes context artifacts
  execute_prevalidated nodes context artifacts (some label_of) validate =
      execute_nodes (some label_of) validate nodes context artifacts

  unfoldable pub execute_graph :
      PreparedGraph V → ExecutionContext → Option (StageContext V) → Traced (ArtifactStore V)
  execute_graph graph context stage_context =
      and_then (validate_graph graph, [])
        (λ nodes. execute_prevalidated nodes context graph.initial_artifacts stage_context true)
