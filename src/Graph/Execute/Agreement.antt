-- ===== src/Graph/Execute/Agreement.antt =====
-- The measured path and the instrumented path of `execute_prevalidated`.
use fused_index_top_k.Graph.Topological.Nodes.{stage_ids}
use fused_index_top_k.Api.{ExecutionContext, ArtifactStore, StageNode}
use fused_index_top_k.Base.{
  String, ◌≡◌, refl, sym, ap, ◌∙◌, Bool, true, false, Option, none, some, List, [], ◌∷◌, ◌++◌, ok,
  err, arith, ap₂, subst,
}
use fused_index_top_k.Graph.Execute.{
  Event, push, pop, ran, StageContext, Traced, and_then, run_stage, run_within, check_produced,
  execute_nodes, execute_plain, execute_prevalidated,
}

-- The stages that ran, in their order.
abbrev pub stages_run : List Event → List String
stages_run [] = []
stages_run (push label ∷ trace) = stages_run trace
stages_run (pop ∷ trace) = stages_run trace
stages_run (ran stage ∷ trace) = stage ∷ stages_run trace

pub stages_run_append : (t u : List Event) → stages_run (t ++ u) ≡ (stages_run t ++ stages_run u)
stages_run_append [] u = refl
stages_run_append (push label ∷ t) u = stages_run_append t u
stages_run_append (pop ∷ t) u = stages_run_append t u
stages_run_append (ran stage ∷ t) u = ap (λ r. stage ∷ r) (stages_run_append t u)

pub and_then_ok :
    {A B : Type 0} (first : Traced A) (f : A → Traced B) (a : A)
    → first.0 ≡ ok a
    → and_then first f ≡ ((f a).0, first.1 ++ (f a).1)
and_then_ok (ok x, trace) f a h = let e : x ≡ a = cc in rw e refl
and_then_ok (err e, trace) f a h = cc

pub stages_of_and_then :
    {A B : Type 0} (first : Traced A) (f : A → Traced B) (a : A) (before after : List String)
    → first.0 ≡ ok a
    → stages_run first.1 ≡ before
    → stages_run (f a).1 ≡ after
    → stages_run (and_then first f).1 ≡ (before ++ after)
stages_of_and_then {B = B} first f a before after h p q =
    ap (λ (r : Traced B). stages_run r.1) (and_then_ok first f a h)
    ∙ stages_run_append first.1 (f a).1
    ∙ ap₂ ◌++◌ p q

pub ok_of_and_then :
    {A B : Type 0} (first : Traced A) (f : A → Traced B) (b : B)
    → (and_then first f).0 ≡ ok b
    → (a : A) × (first.0 ≡ ok a) × ((f a).0 ≡ ok b)
ok_of_and_then (ok x, trace) f b h = (x, refl, h)
ok_of_and_then (err e, trace) f b h = cc

module _ {V : Type 0} where
  within_agrees :
      (stage_context : Option (StageContext V)) (node : StageNode V)
      → (context : ExecutionContext) (artifacts store : ArtifactStore V)
      → (run_within stage_context node context artifacts).0 ≡ ok store
      → ((run_stage node context artifacts).0 ≡ ok store)
        × (stages_run (run_within stage_context node context artifacts).1
            ≡ (node.spec.stage_id ∷ []))
        × (stages_run (run_stage node context artifacts).1 ≡ (node.spec.stage_id ∷ []))
  unfolding run_within run_stage
  within_agrees none node context artifacts store h = ground arith
  within_agrees (some label_of) node context artifacts store h = ground arith

  checked_same :
      (validate : Bool) (node : StageNode V) (artifacts store : ArtifactStore V)
      → check_produced validate node artifacts ≡ ok store
      → artifacts ≡ store
  unfolding check_produced
  checked_same validate node artifacts store h = ground arith

  pub execute_nodes_agree :
      (stage_context : Option (StageContext V)) (validate : Bool)
      → (nodes : List (StageNode V)) (context : ExecutionContext)
        (artifacts store : ArtifactStore V)
      → (execute_nodes stage_context validate nodes context artifacts).0 ≡ ok store
      → ((execute_plain nodes context artifacts).0 ≡ ok store)
        × (stages_run (execute_plain nodes context artifacts).1 ≡ stage_ids nodes)
        × (stages_run (execute_nodes stage_context validate nodes context artifacts).1
            ≡ stage_ids nodes)
  unfolding execute_nodes execute_plain
  execute_nodes_agree stage_context validate [] context artifacts store h = (h, refl, refl)
  execute_nodes_agree stage_context validate (node ∷ nodes) context artifacts store h =
      let within = run_within stage_context node context artifacts in
      let plain = run_stage node context artifacts in
      let id = node.spec.stage_id in
      let (store', ran_ok, rest) = ok_of_and_then within _ store h in
      let check : Traced (ArtifactStore V) = (check_produced validate node store', []) in
      let (checked, check_ok, rest') = ok_of_and_then check _ store rest in
      let same = checked_same validate node store' checked check_ok in
      let (plain_ok, trace, trace') =
        within_agrees stage_context node context artifacts store' ran_ok in
      let (done, stages, stages') =
        execute_nodes_agree stage_context validate nodes context checked store rest' in
      let next =
        subst
          (λ s.
            ((execute_plain nodes context s).0 ≡ ok store)
            × (stages_run (execute_plain nodes context s).1 ≡ stage_ids nodes))
          (sym same) (done, stages) in
      (
        ap (λ (r : Traced (ArtifactStore V)). r.0)
              (and_then_ok plain (execute_plain nodes context) store' plain_ok)
            ∙ next.0,
        stages_of_and_then plain (execute_plain nodes context) store' (id ∷ []) _ plain_ok trace'
            next.1,
        stages_of_and_then within _ store' (id ∷ []) _ ran_ok trace
            (stages_of_and_then check _ checked [] _ check_ok refl stages'),
      )

  plain_stages :
      (nodes : List (StageNode V)) (context : ExecutionContext) (artifacts store : ArtifactStore V)
      → (execute_plain nodes context artifacts).0 ≡ ok store
      → stages_run (execute_plain nodes context artifacts).1 ≡ stage_ids nodes
  unfolding execute_plain
  plain_stages [] context artifacts store h = refl
  plain_stages (node ∷ nodes) context artifacts store h =
      let plain = run_stage node context artifacts in
      let (store', ran_ok, rest) = ok_of_and_then plain _ store h in
      stages_of_and_then plain (execute_plain nodes context) store' (node.spec.stage_id ∷ []) _
        ran_ok (within_agrees none node context artifacts store' (unfold run_within in ran_ok)).2
        (plain_stages nodes context store' store rest)

  -- Whenever an execution returns, with or without a stage context and the check of the produced
  -- artifacts, the measured path, which has neither, returns the same artifacts from the same
  -- start, and both have run every node exactly once, in the order of the nodes.
  pub execute_prevalidated-same_stages :
      (nodes : List (StageNode V)) (context : ExecutionContext) (artifacts store : ArtifactStore V)
      → (stage_context : Option (StageContext V)) (validate : Bool)
      → (execute_prevalidated nodes context artifacts stage_context validate).0 ≡ ok store
      → ((execute_prevalidated nodes context artifacts none false).0 ≡ ok store)
        × (stages_run (execute_prevalidated nodes context artifacts none false).1 ≡ stage_ids nodes)
        × (stages_run (execute_prevalidated nodes context artifacts stage_context validate).1
            ≡ stage_ids nodes)
  unfolding execute_prevalidated
  execute_prevalidated-same_stages nodes context artifacts store none false h =
      let e = plain_stages nodes context artifacts store h in (h, e, e)
  execute_prevalidated-same_stages nodes context artifacts store none true h =
      execute_nodes_agree none true nodes context artifacts store h
  execute_prevalidated-same_stages nodes context artifacts store (some label_of) validate h =
      execute_nodes_agree (some label_of) validate nodes context artifacts store h
