-- ===== src/Lifecycle/Exactness.antt =====
-- What a case lifecycle that reaches its end has shown of the candidate.
pub mod Ends
pub mod Whole
use fused_index_top_k.Api.{RunMode, PrefillCase, ExecutionContext, ArtifactStore, PreparedGraph}
use fused_index_top_k.Base.{
  ℕ, zero, suc, String, ◌≡◌, refl, sym, ap, ◌∙◌, subst, Bool, true, false, not, Option, none, some,
  List, [], ◌∷◌, ◌++◌, if◌then◌else◌, ◌==◌, string_eq, eq_iff, contains, Dict, keys, get, put,
  get-put, Result, ok, err, ◌>>=◌, ◌>>◌, >>=-eq-ok, raise_if, map_err, Bool-cases, Option-cases,
  inl, inr, arith,
}
use fused_index_top_k.Correctness.{CorrectnessError, TieRows}
use fused_index_top_k.Correctness.Tensor.{Tensor}
use fused_index_top_k.Correctness.Compare.{
  tensor, OutputCheck, ComparisonCheck, validate_topk_indices, compare_topk_indices,
}
use fused_index_top_k.Correctness.Oracle.{Scores, OracleSummary, build_score_threshold_oracle}
use fused_index_top_k.Graph.Validate.Parts.{>>-ok}
use fused_index_top_k.Graph.Execute.{execute_prevalidated}
use fused_index_top_k.Lifecycle.{
  LifecycleError, graph_error, correctness_error, FixtureState, OracleState, Plugin, Host,
  Candidate, CaseLifecycle, create_fixture, create, verify_fixtures, verify_input_integrity,
  prepare_graph, bound_artifacts, execute, build_oracle, build_oracles, prepare_candidate,
  validate_outputs, check_fixtures, check_candidate, add_oracle, check_output,
}

pub map_err-ok :
    {E F A : Type 0} (f : E → F) (m : Result E A) (a : A) → map_err f m ≡ ok a → m ≡ ok a
map_err-ok f (ok x) a h = ground arith
map_err-ok f (err e) a h = ground arith

-- What an operation of the lifecycle leaves as it is.
abbrev pub Setting : Type 0 → Type 0
Setting V = PrefillCase × RunMode × Dict (FixtureState V)

abbrev pub setting : {V W : Type 0} → CaseLifecycle V W → Setting V
setting s = (s.case, s.mode, s.fixtures)

-- The graph ran on the inputs of a fixture, with all declared artifacts checked.
pub record RanOn {V : Type 0} (g : Setting V) (c : Candidate V) (id : String)
    (outputs : ArtifactStore V) : Type 0 where
  pub fixture : FixtureState V
  pub iteration : ℕ
  pub known : get g.2 id ≡ some fixture
  pub returned :
      (execute_prevalidated c.nodes
        (record { case = g.0; mode = g.1; iteration = iteration })
        (put c.graph.initial_artifacts "inputs" fixture.inputs)
        none
        true).0
      ≡ ok outputs

module _ {V W : Type 0} (sort : List ℕ → List ℕ) (finite : ℕ → Bool) (topk : ℕ → List ℕ → List ℕ)
    (host : Host V W) where
  -- The oracle of a fixture comes from a run of one reference graph on the fixture's inputs.
  pub record OracleFrom (g : Setting V) (id : String) (o : OracleState) : Type 0 where
    pub reference : Candidate V
    pub outputs : ArtifactStore V
    pub logits : V
    pub output : V
    pub ran_on : RanOn g reference id outputs
    pub logits_is : get outputs "logits" ≡ some logits
    pub output_is : get outputs reference.graph.terminal_artifact ≡ some output
    pub indices_is : o.indices ≡ host.as_tensor output
    pub built :
        build_score_threshold_oracle sort finite topk (host.as_scores logits) o.indices g.0
        ≡ ok (o.cutoff_tie_check, o.cutoff_tie_rows)

  abbrev pub HasOracles : CaseLifecycle V W → Type 0
  HasOracles s =
      (id : String) (o : OracleState) → get s.oracles id ≡ some o → OracleFrom (setting s) id o

  pub execute-RanOn :
      (c : Candidate V) (s : CaseLifecycle V W) (id : String) (iteration : ℕ)
      → (outputs : ArtifactStore V) (w : W)
      → execute sort finite topk host c s id iteration true ≡ ok (outputs, w)
      → RanOn (setting s) c id outputs
  unfolding execute bound_artifacts
  execute-RanOn c s id iteration outputs w h =
      let (artifacts, bound, h1) = >>=-eq-ok (bound_artifacts sort finite topk host c s id) _ h in
      let context : ExecutionContext = record {
        case = s.case;
        mode = s.mode;
        iteration = iteration;
      } in
      let (found, ran, h2) =
        >>=-eq-ok (map_err graph_error (execute_prevalidated c.nodes context artifacts none true).0)
          _ h1 in
      let done =
        map_err-ok graph_error (execute_prevalidated c.nodes context artifacts none true).0 found
          ran in
      let same : found ≡ outputs = ground arith in
      elim (Option-cases (get s.fixtures id)) [
        | inl missing ↦ absurd (ground arith)
        | inr (fixture, is) ↦
            let here : put c.graph.initial_artifacts "inputs" fixture.inputs ≡ artifacts =
              ground arith in
            record {
              fixture = fixture;
              iteration = iteration;
              known = is;
              returned =
                  ap (λ a. (execute_prevalidated c.nodes context a none true).0) here
                  ∙ done
                  ∙ ap (λ a. ok a) same;
            }
      ]

  -- One round adds one oracle and nothing else.
  pub record Added (s : CaseLifecycle V W) (id : String) (s' : CaseLifecycle V W) : Type 0 where
    pub oracle : OracleState
    pub from : OracleFrom (setting s) id oracle
    pub same : setting s' ≡ setting s
    pub oracles_are : s'.oracles ≡ put s.oracles id oracle

  pub build_oracle-Added :
      (c : Candidate V) (s : CaseLifecycle V W) (id : String) (iteration : ℕ)
      (s' : CaseLifecycle V W)
      → build_oracle sort finite topk host c s id iteration ≡ ok s'
      → Added s id s'
  unfolding build_oracle add_oracle
  build_oracle-Added c s id iteration s' h =
      let (result, ran, h1) = >>=-eq-ok (execute sort finite topk host c s id iteration true) _ h in
      elim (Option-cases (get result.0 "logits")) [
        | inl missing ↦ absurd (ground arith)
        | inr (logits, is) ↦ elim (Option-cases (get result.0 c.graph.terminal_artifact)) [
          | inl missing ↦ absurd (ground arith)
          | inr (output, is') ↦
              let h2 : add_oracle sort finite topk host s id logits output result.1 ≡ ok s' =
                ground arith in
              let (checked, _, h3) =
                >>=-eq-ok
                  (map_err correctness_error
                    (validate_topk_indices sort (tensor (host.as_tensor output)) s.case))
                  _ h2 in
              let (oracle, found, h4) =
                >>=-eq-ok
                  (map_err correctness_error (
                    build_score_threshold_oracle sort finite topk (host.as_scores logits)
                      (host.as_tensor output) s.case))
                  _ h3 in
              let state : OracleState = record {
                indices = host.as_tensor output;
                output_check = checked;
                cutoff_tie_check = oracle.0;
                cutoff_tie_rows = oracle.1;
              } in
              let same : record s { oracles = put s.oracles id state; world = result.1 } ≡ s' =
                cc in
              record {
                oracle = state;
                from = record {
                  reference = c;
                  outputs = result.0;
                  logits = logits;
                  output = output;
                  ran_on = execute-RanOn c s id iteration result.0 result.1 ran;
                  logits_is = is;
                  output_is = is';
                  indices_is = refl;
                  built = map_err-ok correctness_error _ oracle found;
                };
                same = ap (λ (t : CaseLifecycle V W). setting t) (sym same);
                oracles_are = ap (λ (t : CaseLifecycle V W). t.oracles) (sym same);
              }
        ]
      ]

  pub Added-HasOracles :
      (s : CaseLifecycle V W) (id : String) (s' : CaseLifecycle V W)
      → Added s id s'
      → HasOracles s
      → HasOracles s'
  Added-HasOracles s id s' a h key o is =
      subst (λ (g : Setting V). OracleFrom g key o) (sym a.same)
        (elim (Bool-cases (id == key)) [
          | inl here ↦
              let e : a.oracle ≡ o =
                ground (arith, a.oracles_are, get-put s.oracles id a.oracle key) in
              subst (λ (k : String). OracleFrom (setting s) k o) ((eq_iff id key).0 here)
                (subst (OracleFrom (setting s) id) e a.from)
          | inr there ↦ h key o (ground (arith, a.oracles_are, get-put s.oracles id a.oracle key))
        ])
