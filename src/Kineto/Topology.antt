-- ===== src/Kineto/Topology.antt =====
-- What the gate on the topology of the trials establishes.
use fused_index_top_k.Base.{
  ℕ, ◌≤◌, ◌≡◌, refl, sym, ap, subst, ◌∙◌, ◌⊎◌, inl, inr, String, true, not, Option, none, some,
  List, [], ◌∷◌, map, eqb, ◌==◌, string_eq, nat_eq, length, contains, Dict, get, put, ok, raise_if,
  >>=-eq-ok, returned, some_eq, none_is_some, arith, eq_iff, Bool-cases, Option-cases, get-put,
}
use fused_index_top_k.Kineto.{
  Clock, KinetoError, empty_topology, operator_changed, kernel_coverage, activity_coverage,
}
use fused_index_top_k.Kineto.Timing.{ActivityKind, memory, kernel, RangeTiming}
use fused_index_top_k.Kineto.Trials.{
  Trial, Signature, signature, same_kind, same_signature, Topology, sum_counts, stage_of,
  stage_table, check_signature, check_stage_signatures, check_coverage, check_trial, check_trials,
  validate_trial_topology,
}
use fused_index_top_k.Config.Read.{collect}
use fused_index_top_k.Graph.Validate.Parts.{>>-ok}

same_kind-eq : (a b : ActivityKind) → same_kind a b ≡ true → a ≡ b
same_kind-eq memory memory h = refl
same_kind-eq kernel kernel h = refl
same_kind-eq memory kernel h = ground arith
same_kind-eq kernel memory h = ground arith

pub same_signature-eq : (xs ys : Signature) → same_signature xs ys ≡ true → xs ≡ ys
unfolding same_signature
same_signature-eq [] [] h = refl
same_signature-eq [] (y ∷ ys) h = ground arith
same_signature-eq (x ∷ xs) [] h = ground arith
same_signature-eq ((k, n) ∷ xs) ((k', n') ∷ ys) h =
    ground (arith, same_kind-eq k k', eq_iff n n', same_signature-eq xs ys)

module _ {T : Type 0} where
  stage_of-get :
      (trial : Trial T) (id : String) (t : RangeTiming T)
      → stage_of trial id ≡ ok t
      → get trial.stages id ≡ some t
  unfolding stage_of
  stage_of-get trial id t h = elim (Option-cases (get trial.stages id)) [
    | inl out ↦ ground arith
    | inr (u, is) ↦ is ∙ ap some (returned (λ x. u ≡ x) (rw (is, stage_of) at h) refl)
  ]

  -- An entry of a table over the stages is the value of that stage, or stood there before.
  stage_table-get :
      (f : RangeTiming T → Signature) (trial : Trial T) (ids : List String)
      (before after : Dict Signature)
      → stage_table f trial ids before ≡ ok after
      → (id : String) (v : Signature) → get after id ≡ some v
      → (get before id ≡ some v)
        ⊎ ((t : RangeTiming T) × (get trial.stages id ≡ some t) × (v ≡ f t))
  unfolding stage_table
  stage_table-get f trial [] before after h id v g =
      inl (returned (λ d. get d id ≡ some v) (sym h) g)
  stage_table-get f trial (x ∷ ids) before after h id v g =
      let (t, found, h1) = >>=-eq-ok (stage_of trial x) _ h in
      elim (stage_table-get f trial ids (put before x (f t)) after h1 id v g) [
        | inr made ↦ inr made
        | inl stood ↦ elim (Bool-cases (x == id)) [
          | inl here ↦
              let same = (eq_iff x id).0 here in
              let value : some (f t) ≡ some v =
                sym (get-put before x (f t) id ∙ rw here refl) ∙ stood in
              inr (
                t,
                subst (λ k. get trial.stages k ≡ some t) same (stage_of-get trial x t found),
                sym (some_eq (f t) v value),
              )
          | inr there ↦ inl (ground (arith, get-put before x (f t) id))
        ]
      ]

  -- A trial has the activities of the first one, for the operator and for each stage, and its
  -- stages cover the operator's kernels and activities.
  pub record IsLike (first : Trial T) (stage_ids : List String) (trial : Trial T) : Type 0 where
    pub same_operator : signature trial.operator ≡ signature first.operator
    pub same_stages :
        (id : String)
        → contains stage_ids id ≡ true
        → (mine its : RangeTiming T) × (get trial.stages id ≡ some mine)
          × (get first.stages id ≡ some its)
          × (signature mine ≡ signature its)
    pub stage_timings : List (RangeTiming T)
    pub each_stage : collect (stage_of trial) stage_ids ≡ ok stage_timings
    pub kernels_covered :
        sum_counts (map (λ (s : RangeTiming T). s.kernel_count) stage_timings)
        ≡ trial.operator.kernel_count
    pub activities_covered :
        sum_counts (map (λ (s : RangeTiming T). s.activity_count) stage_timings)
        ≡ trial.operator.activity_count

  abbrev pub AllLike : Trial T → List String → List (Trial T) → Type 0
  AllLike first stage_ids [] = Unit
  AllLike first stage_ids (trial ∷ trials) =
      IsLike first stage_ids trial × AllLike first stage_ids trials

  check_stage_signatures-same :
      (expected : Dict Signature) (trial : Trial T) (ids : List String)
      → check_stage_signatures expected trial ids ≡ ok tt
      → (id : String) → contains ids id ≡ true
      → (t : RangeTiming T) × (get trial.stages id ≡ some t)
        × (get expected id ≡ some (signature t))
  unfolding check_stage_signatures
  check_stage_signatures-same expected trial [] h id m = ground arith
  check_stage_signatures-same expected trial (x ∷ ids) h id m =
      let (t, found, h1) = >>=-eq-ok (stage_of trial x) _ h in
      let (checked, h2) =
        >>-ok (check_signature t (get expected x)) (check_stage_signatures expected trial ids) h1 in
      elim (Bool-cases (x == id)) [
        | inl here ↦
            subst
              (λ k.
                (t : RangeTiming T) × (get trial.stages k ≡ some t)
                × (get expected k ≡ some (signature t)))
              ((eq_iff x id).0 here)
              (t, stage_of-get trial x t found, known t (get expected x) checked)
        | inr there ↦ check_stage_signatures-same expected trial ids h2 id (ground arith)
      ]
    where
      known :
          (t : RangeTiming T) (o : Option Signature)
          → check_signature t o ≡ ok tt
          → o ≡ some (signature t)
      known t none h = ground arith
      known t (some s) h = ap some (sym (same_signature-eq (signature t) s (ground arith)))

module _ {T : Type 0} (clock : Clock T) where
  check_trial-IsLike :
      (first trial : Trial T) (ids : List String) (expected : Dict Signature)
      → stage_table signature first ids [] ≡ ok expected
      → check_trial clock (signature first.operator) expected ids trial ≡ ok tt
      → IsLike first ids trial
  unfolding check_trial check_coverage
  check_trial-IsLike first trial ids expected table h =
      let test = not (same_signature (signature trial.operator) (signature first.operator)) in
      let (operator, h1) = >>-ok (raise_if test operator_changed) _ h in
      let (stages, h2) = >>-ok (check_stage_signatures expected trial ids) _ h1 in
      let (timings, each, h3) = >>=-eq-ok (collect (stage_of trial) ids) _ h2 in
      let kernels = sum_counts (map (λ (s : RangeTiming T). s.kernel_count) timings) in
      let activities = sum_counts (map (λ (s : RangeTiming T). s.activity_count) timings) in
      let (k, h4) =
        >>-ok (raise_if (not (eqb kernels trial.operator.kernel_count)) kernel_coverage) _ h3 in
      let (a, h5) =
        >>-ok (raise_if (not (eqb activities trial.operator.activity_count)) activity_coverage) _
          h4 in
      record {
        same_operator =
            same_signature-eq (signature trial.operator) (signature first.operator) (ground arith);
        same_stages = λ id m.
            let (mine, is, s) = check_stage_signatures-same expected trial ids stages id m in
            elim (stage_table-get signature first ids [] expected table id (signature mine) s) [
              | inl never ↦ absurd (none_is_some (signature mine) never)
              | inr (its, found, same) ↦ (mine, its, is, found, same)
            ];
        stage_timings = timings;
        each_stage = each;
        kernels_covered = counts kernels trial.operator.kernel_count kernel_coverage k;
        activities_covered = counts activities trial.operator.activity_count activity_coverage a;
      }
    where
      counts : (n m : ℕ) (e : KinetoError) → raise_if (not (eqb n m)) e ≡ ok tt → n ≡ m
      counts n m e h = ground arith

  check_trials-AllLike :
      (first : Trial T) (ids : List String) (expected : Dict Signature) (trials : List (Trial T))
      → stage_table signature first ids [] ≡ ok expected
      → check_trials clock (signature first.operator) expected ids trials ≡ ok tt
      → AllLike first ids trials
  unfolding check_trials
  check_trials-AllLike first ids expected [] table h = tt
  check_trials-AllLike first ids expected (trial ∷ trials) table h =
      let (this, others) =
        >>-ok (check_trial clock (signature first.operator) expected ids trial) _ h in
      (
        check_trial-IsLike first trial ids expected table this,
        check_trials-AllLike first ids expected trials table others,
      )

  -- When the gate on the topology passes, all trials have the operator activities and the stage
  -- activities of the first one, kind by kind and name by name in order, in each trial the kernels
  -- and the activities of the stages add up to those of the operator, and the operator of the
  -- first trial has at least one activity.
  pub validate_trial_topology-AllLike :
      (first : Trial T) (rest : List (Trial T)) (stage_ids : List String) (topology : Topology)
      → validate_trial_topology clock (first ∷ rest) stage_ids ≡ ok topology
      → AllLike first stage_ids (first ∷ rest) × (1 ≤ length (signature first.operator))
  unfolding validate_trial_topology
  validate_trial_topology-AllLike first rest stage_ids topology h =
      let empty = eqb (length (signature first.operator)) 0 in
      let (some_activity, h1) = >>-ok (raise_if empty empty_topology) _ h in
      let (expected, table, h2) = >>=-eq-ok (stage_table signature first stage_ids []) _ h1 in
      let (all, _) =
        >>-ok (check_trials clock (signature first.operator) expected stage_ids (first ∷ rest)) _
          h2 in
      (check_trials-AllLike first stage_ids expected (first ∷ rest) table all, ground arith)
