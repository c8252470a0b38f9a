-- ===== src/Graph/Execute/Ranges.antt =====
-- The profiler ranges of an execution: a range is popped on every path, errors included.
use fused_index_top_k.Api.{ExecutionContext, ArtifactStore, StageNode}
use fused_index_top_k.Base.{
  ◌≡◌, refl, Bool, true, false, not, some, List, [], ◌∷◌, ◌++◌, ok, err, arith,
}
use fused_index_top_k.Graph.Execute.{
  Event, push, pop, ran, StageContext, Traced, and_then, run_stage, run_within, check_produced,
  execute_nodes, execute_prevalidated,
}

-- Ranges do not nest, stages run within a range, and no range is open at the end.
unfoldable pub well_scoped : Bool → List Event → Bool
well_scoped is_open [] = not is_open
well_scoped false (push label ∷ trace) = well_scoped true trace
well_scoped true (push label ∷ trace) = false
well_scoped false (pop ∷ trace) = false
well_scoped true (pop ∷ trace) = well_scoped false trace
well_scoped false (ran stage ∷ trace) = false
well_scoped true (ran stage ∷ trace) = well_scoped true trace

well_scoped_append :
    (is_open : Bool) (t u : List Event)
    → well_scoped is_open t ≡ true
    → well_scoped false u ≡ true
    → well_scoped is_open (t ++ u) ≡ true
unfolding well_scoped
well_scoped_append false [] u h k = k
well_scoped_append true [] u h k = ground arith
well_scoped_append false (push label ∷ t) u h k = well_scoped_append true t u h k
well_scoped_append true (push label ∷ t) u h k = ground arith
well_scoped_append false (pop ∷ t) u h k = ground arith
well_scoped_append true (pop ∷ t) u h k = well_scoped_append false t u h k
well_scoped_append false (ran stage ∷ t) u h k = ground arith
well_scoped_append true (ran stage ∷ t) u h k = well_scoped_append true t u h k

and_then_scoped :
    {A B : Type 0} (first : Traced A) (f : A → Traced B)
    → well_scoped false first.1 ≡ true
    → ((a : A) → well_scoped false (f a).1 ≡ true)
    → well_scoped false (and_then first f).1 ≡ true
and_then_scoped (ok a, trace) f h k = well_scoped_append false trace (f a).1 h (k a)
and_then_scoped (err e, trace) f h k = h

module _ {V : Type 0} where
  run_within_scoped :
      (label_of : StageContext V) (node : StageNode V)
      → (context : ExecutionContext) (artifacts : ArtifactStore V)
      → well_scoped false (run_within (some label_of) node context artifacts).1 ≡ true
  unfolding well_scoped run_within run_stage
  run_within_scoped label_of node context artifacts = ground arith

  execute_nodes_scoped :
      (label_of : StageContext V) (validate : Bool) (nodes : List (StageNode V))
      → (context : ExecutionContext) (artifacts : ArtifactStore V)
      → well_scoped false (execute_nodes (some label_of) validate nodes context artifacts).1 ≡ true
  unfolding execute_nodes well_scoped
  execute_nodes_scoped label_of validate [] context artifacts = refl
  execute_nodes_scoped label_of validate (node ∷ nodes) context artifacts =
      and_then_scoped (run_within (some label_of) node context artifacts) _
        (run_within_scoped label_of node context artifacts)
        (λ store.
          and_then_scoped (check_produced validate node store, []) _ refl
            (λ checked. execute_nodes_scoped label_of validate nodes context checked))

  -- With a stage context, whatever the stages do and whether or not the execution raises, every
  -- range that was pushed is popped again, ranges do not nest, and stages run within a range only.
  pub execute_prevalidated-well_scoped :
      (nodes : List (StageNode V)) (context : ExecutionContext) (artifacts : ArtifactStore V)
      → (label_of : StageContext V) (validate : Bool)
      → well_scoped false (execute_prevalidated nodes context artifacts (some label_of) validate).1
        ≡ true
  unfolding execute_prevalidated
  execute_prevalidated-well_scoped nodes context artifacts label_of validate =
      execute_nodes_scoped label_of validate nodes context artifacts
