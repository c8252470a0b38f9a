-- ===== src/Lifecycle/Exactness/Ends.antt =====
-- A lifecycle from the creation of the fixtures to the end of a check.
use fused_index_top_k.Api.{ArtifactStore}
use fused_index_top_k.Base.{
  ℕ, suc, String, ◌≡◌, refl, sym, ap, ◌∙◌, subst, Bool, true, some, List, [], ◌∷◌, ◌++◌, ◌==◌,
  string_eq, eq_iff, contains, Dict, get, ok, >>=-eq-ok, raise_if, map_err, Bool-cases,
  Option-cases, inl, inr, arith,
}
use fused_index_top_k.Correctness.Compare.{
  tensor, OutputCheck, ComparisonCheck, validate_topk_indices, compare_topk_indices,
}
use fused_index_top_k.Graph.Validate.Parts.{>>-ok}
use fused_index_top_k.Lifecycle.{
  correctness_error, OracleState, Plugin, Host, Candidate, CaseLifecycle, verify_fixtures,
  verify_input_integrity, prepare_graph, execute, build_oracle, build_oracles, prepare_candidate,
  validate_outputs, check_fixtures, check_output, no_oracles, oracles_first,
}
use fused_index_top_k.Lifecycle.Exactness.{
  map_err-ok, Setting, setting, RanOn, OracleFrom, HasOracles, execute-RanOn, build_oracle-Added,
  Added-HasOracles,
}

module _ {V W : Type 0} (sort : List ℕ → List ℕ) (finite : ℕ → Bool) (topk : ℕ → List ℕ → List ℕ)
    (host : Host V W) where
  -- What the later operations keep.
  abbrev pub Kept : CaseLifecycle V W → CaseLifecycle V W → Type 0
  Kept s s' = (setting s' ≡ setting s) × (s'.oracles ≡ s.oracles)

  pub Kept-HasOracles :
      (s s' : CaseLifecycle V W)
      → Kept s s'
      → HasOracles sort finite topk host s
      → HasOracles sort finite topk host s'
  Kept-HasOracles s s' k h id o is =
      subst (λ (g : Setting V). OracleFrom sort finite topk host g id o) (sym k.0)
        (h id o (subst (λ (d : Dict OracleState). get d id ≡ some o) k.1 is))

  -- A passed integrity check.
  pub record Intact (s s' : CaseLifecycle V W) : Type 0 where
    pub kept : Kept s s'
    pub candidate_kept : s'.candidate ≡ s.candidate
    pub verified : verify_fixtures sort finite topk host s'.world s'.fixtures ≡ ok tt

  pub verify_input_integrity-Intact :
      (phase : String) (s s' : CaseLifecycle V W)
      → verify_input_integrity sort finite topk host phase s ≡ ok s'
      → Intact s s'
  unfolding verify_input_integrity
  verify_input_integrity-Intact phase s s' h =
      let (verified, h1) = >>-ok (verify_fixtures sort finite topk host s.world s.fixtures) _ h in
      let same : record s { integrity_checks = s.integrity_checks ++ phase ∷ [] } ≡ s' =
        ground arith in
      subst (Intact s) same
        (record { kept = (refl, refl); candidate_kept = refl; verified = verified })

  pub build_oracles-HasOracles :
      (plugin : Plugin V) (s s' : CaseLifecycle V W)
      → build_oracles sort finite topk host plugin s ≡ ok s'
      → HasOracles sort finite topk host s
      → HasOracles sort finite topk host s' × (setting s' ≡ setting s)
  unfolding build_oracles
  build_oracles-HasOracles plugin s s' h has =
      let (prepared, _, h1) = >>=-eq-ok (prepare_graph sort finite topk host plugin s) _ h in
      let start : CaseLifecycle V W = record s { world = prepared.1 } in
      let (first, a, h2) =
        >>=-eq-ok (build_oracle sort finite topk host prepared.0 start "A" 0) _ h1 in
      let (second, b, h3) =
        >>=-eq-ok (build_oracle sort finite topk host prepared.0 first "B" 1) _ h2 in
      let added = build_oracle-Added sort finite topk host prepared.0 start "A" 0 first a in
      let added' = build_oracle-Added sort finite topk host prepared.0 first "B" 1 second b in
      let intact = verify_input_integrity-Intact "before_candidate" second s' h3 in
      (
        Kept-HasOracles second s' intact.kept (
            Added-HasOracles sort finite topk host first "B" second added'
              (Added-HasOracles sort finite topk host start "A" first added has)),
        intact.kept.0 ∙ added'.same ∙ added.same,
      )

  pub prepare_candidate-Kept :
      (plugin : Plugin V) (s s' : CaseLifecycle V W)
      → prepare_candidate sort finite topk host plugin s ≡ ok s'
      → Kept s s'
  unfolding prepare_candidate
  prepare_candidate-Kept plugin s s' h =
      let (_, h1) = >>-ok (raise_if (no_oracles s.oracles) oracles_first) _ h in
      let (prepared, _, h2) = >>=-eq-ok (prepare_graph sort finite topk host plugin s) _ h1 in
      let start : CaseLifecycle V W = record s { world = prepared.1 } in
      let (checked, c, h3) =
        >>=-eq-ok (verify_input_integrity sort finite topk host "candidate_prepare" start) _ h2 in
      let intact = verify_input_integrity-Intact "candidate_prepare" start checked c in
      let same : record checked { candidate = some prepared.0 } ≡ s' = ground arith in
      subst (Kept s) same intact.kept

  -- A fixture's output of the candidate was accepted by the comparison with the fixture's oracle.
  pub record Accepted (s : CaseLifecycle V W) (c : Candidate V) (id : String) : Type 0 where
    pub outputs : ArtifactStore V
    pub output : V
    pub oracle : OracleState
    pub check : ComparisonCheck
    pub ran_on : RanOn (setting s) c id outputs
    pub output_is : get outputs c.graph.terminal_artifact ≡ some output
    pub oracle_is : get s.oracles id ≡ some oracle
    pub compared :
        compare_topk_indices sort
          (tensor (host.as_tensor output))
          (tensor oracle.indices)
          s.case
          (some oracle.cutoff_tie_rows)
        ≡ ok check

  validate_outputs-Accepted :
      (s : CaseLifecycle V W) (c : Candidate V) (id : String) (outputs : ArtifactStore V)
      → (result : OutputCheck × ComparisonCheck) → s.candidate ≡ some c
      → RanOn (setting s) c id outputs
      → validate_outputs sort finite topk host s outputs id ≡ ok result
      → Accepted s c id
  unfolding validate_outputs check_output
  validate_outputs-Accepted s c id outputs result is ran h =
      elim (Option-cases (get s.oracles id)) [
        | inl missing ↦ absurd (ground arith)
        | inr (oracle, known) ↦ elim (Option-cases (get outputs c.graph.terminal_artifact)) [
          | inl missing ↦ absurd (ground arith)
          | inr (output, made) ↦
              let h1 : check_output sort finite topk host s.case oracle output ≡ ok result =
                ground arith in
              let indices = tensor (host.as_tensor output) in
              let (_, _, h2) =
                >>=-eq-ok (map_err correctness_error (validate_topk_indices sort indices s.case)) _
                  h1 in
              let comparison =
                compare_topk_indices sort indices (tensor oracle.indices) s.case
                  (some oracle.cutoff_tie_rows) in
              let (check, found, _) = >>=-eq-ok (map_err correctness_error comparison) _ h2 in
              record {
                outputs = outputs;
                output = output;
                oracle = oracle;
                check = check;
                ran_on = ran;
                output_is = made;
                oracle_is = known;
                compared = map_err-ok correctness_error comparison check found;
              }
        ]
      ]

  at_world :
      (s : CaseLifecycle V W) (w : W) (c : Candidate V) (id : String)
      → Accepted (record s { world = w }) c id
      → Accepted s c id
  at_world s w c id a = record {
    outputs = a.outputs;
    output = a.output;
    oracle = a.oracle;
    check = a.check;
    ran_on = a.ran_on;
    output_is = a.output_is;
    oracle_is = a.oracle_is;
    compared = a.compared;
  }

  pub check_fixtures-Accepted :
      (c : Candidate V) (s s' : CaseLifecycle V W) (order : List String) (iteration : ℕ)
      (id : String)
      → s.candidate ≡ some c
      → check_fixtures sort finite topk host c s order iteration ≡ ok s'
      → contains order id ≡ true
      → Accepted s c id
  unfolding check_fixtures
  check_fixtures-Accepted c s s' [] iteration id is h m = absurd (ground arith)
  check_fixtures-Accepted c s s' (x ∷ order) iteration id is h m =
      let (run, ran, h1) = >>=-eq-ok (execute sort finite topk host c s x iteration true) _ h in
      let (result, valid, h2) = >>=-eq-ok (validate_outputs sort finite topk host s run.0 x) _ h1 in
      let ran_on = execute-RanOn sort finite topk host c s x iteration run.0 run.1 ran in
      elim (Bool-cases (x == id)) [
        | inl here ↦
            subst (Accepted s c) ((eq_iff x id).0 here)
              (validate_outputs-Accepted s c x run.0 result is ran_on valid)
        | inr there ↦ at_world s run.1 c id (
            check_fixtures-Accepted c (record s { world = run.1 }) s' order (suc iteration) id is h2
              (ground arith))
      ]

  pub check_fixtures-Kept :
      (c : Candidate V) (s s' : CaseLifecycle V W) (order : List String) (iteration : ℕ)
      → check_fixtures sort finite topk host c s order iteration ≡ ok s'
      → setting s' ≡ setting s
  unfolding check_fixtures
  check_fixtures-Kept c s s' [] iteration h =
      let same : s ≡ s' = ground arith in ap (λ (t : CaseLifecycle V W). setting t) (sym same)
  check_fixtures-Kept c s s' (x ∷ order) iteration h =
      let (run, ran, h1) = >>=-eq-ok (execute sort finite topk host c s x iteration true) _ h in
      let (result, valid, h2) = >>=-eq-ok (validate_outputs sort finite topk host s run.0 x) _ h1 in
      check_fixtures-Kept c (record s { world = run.1 }) s' order (suc iteration) h2
