-- ===== src/Lifecycle.antt =====
-- src/fused_index_topk/lifecycle.py: the lifecycle of a case, from its two input fixtures to the
-- final integrity check. The inputs are values of a type `V`; their generation, their checks and
-- their fingerprints, the reference and candidate plugins and the reading of an artifact as indices
-- or scores are parameters (`Host`, `Plugin`). Time passes between the calls: the fingerprint and the
-- version counters of an input are read at a world `W`, which the stages may change.
pub mod Exactness
use fused_index_top_k.Api.{
  RunMode, PrefillCase, VariantDescriptor, ExecutionContext, ArtifactStore, StageNode,
  PreparedGraph,
}
use fused_index_top_k.Base.{
  ℕ, zero, suc, ◌+◌, ◌%◌, String, Bool, true, false, not, ◌&&◌, ◌||◌, Option, none, some, List, [],
  ◌∷◌, ◌++◌, eqb, if◌then◌else◌, ◌==◌, string_eq, contains, Dict, keys, get, put, Result, ok, err,
  ◌>>=◌, ◌>>◌, raise_if, map_err,
}
use fused_index_top_k.Correctness.{CorrectnessError, TieRows}
use fused_index_top_k.Correctness.Tensor.{Tensor}
use fused_index_top_k.Correctness.Compare.{
  IndexArray, tensor, OutputCheck, ComparisonCheck, validate_topk_indices, compare_topk_indices,
}
use fused_index_top_k.Correctness.Oracle.{Scores, OracleSummary, build_score_threshold_oracle}
use fused_index_top_k.Graph.{GraphError}
use fused_index_top_k.Graph.Validate.{validate_graph}
use fused_index_top_k.Graph.Execute.{StageContext, execute_prevalidated}

pub data LifecycleError : Type 0 where
  wrong_case wrong_fixture inputs_rejected same_content unsupported_case prepare_raised :
      LifecycleError
  descriptor_mismatch inputs_not_exposed unknown_fixture no_logits : LifecycleError
  oracles_first candidate_first no_terminal_artifact : LifecycleError
  content_changed versions_changed : String → LifecycleError
  graph_error : GraphError → LifecycleError
  correctness_error : CorrectnessError → LifecycleError

abbrev pub fixture_ids : List String
fixture_ids = "A" ∷ "B" ∷ []

pub record FixtureState (V : Type 0) : Type 0 where
  pub inputs : V
  pub content_before : String
  pub versions_before : List ℕ

pub record OracleState : Type 0 where
  pub indices : Tensor
  pub output_check : OutputCheck
  pub cutoff_tie_check : OracleSummary
  pub cutoff_tie_rows : TieRows

-- A loaded variant: `prepare` returns a graph or raises.
pub record Plugin (V : Type 0) : Type 0 where
  pub plugin_id : String
  pub supports : PrefillCase → Bool
  pub prepare : PrefillCase → V → RunMode → Option (PreparedGraph V)

-- What the lifecycle uses of tensors and their generation. `prepared` and `executed` are the
-- effects of a plugin's code on the world.
pub record Host (V W : Type 0) : Type 0 where
  pub make_inputs : PrefillCase → String → V
  pub case_matches : PrefillCase → V → Bool
  pub fixture_of : V → String
  pub inputs_valid : V → Bool
  pub content : W → V → String
  pub versions : W → V → List ℕ
  pub as_tensor : V → Tensor
  pub as_scores : V → Scores
  pub prepared : V → W → W
  pub executed : ExecutionContext → ArtifactStore V → W → W

pub record Candidate (V : Type 0) : Type 0 where
  pub graph : PreparedGraph V
  pub nodes : List (StageNode V)

pub record CaseLifecycle (V W : Type 0) : Type 0 where
  pub case : PrefillCase
  pub mode : RunMode
  pub fixtures : Dict (FixtureState V)
  pub oracles : Dict OracleState
  pub candidate : Option (Candidate V)
  pub integrity_checks : List String
  pub world : W

abbrev pub same_versions : List ℕ → List ℕ → Bool
same_versions [] [] = true
same_versions (x ∷ xs) (y ∷ ys) = eqb x y && same_versions xs ys
same_versions [] (y ∷ ys) = false
same_versions (x ∷ xs) [] = false

abbrev pub no_oracles : Dict OracleState → Bool
no_oracles [] = true
no_oracles (x ∷ oracles) = false

module _ {V W : Type 0} (sort : List ℕ → List ℕ) (finite : ℕ → Bool) (topk : ℕ → List ℕ → List ℕ)
    (host : Host V W) where
  -- One round of `_create_fixtures`.
  unfoldable pub create_fixture : PrefillCase → W → String → Result LifecycleError (FixtureState V)
  create_fixture case world fixture_id = do
    let inputs = host.make_inputs case fixture_id
    raise_if (not (host.case_matches case inputs)) wrong_case
    raise_if (not (host.fixture_of inputs == fixture_id)) wrong_fixture
    raise_if (not (host.inputs_valid inputs)) inputs_rejected
    ok (record {
      inputs = inputs;
      content_before = host.content world inputs;
      versions_before = host.versions world inputs;
    })

  -- The constructor, with `_create_fixtures`.
  unfoldable pub create : PrefillCase → RunMode → W → Result LifecycleError (CaseLifecycle V W)
  create case mode world = do
    a ← create_fixture case world "A"
    b ← create_fixture case world "B"
    raise_if (a.content_before == b.content_before) same_content
    ok (record {
      case = case;
      mode = mode;
      fixtures = ("A", a) ∷ ("B", b) ∷ [];
      oracles = [];
      candidate = none;
      integrity_checks = [];
      world = world;
    })

  unfoldable pub verify_fixtures : W → Dict (FixtureState V) → Result LifecycleError (Unit {0})
  verify_fixtures world [] = ok tt
  verify_fixtures world ((fixture_id, fixture) ∷ rest) = do
    raise_if (not (host.content world fixture.inputs == fixture.content_before))
        (content_changed fixture_id)
    raise_if (not (same_versions (host.versions world fixture.inputs) fixture.versions_before))
        (versions_changed fixture_id)
    verify_fixtures world rest

  unfoldable pub verify_input_integrity :
      String → CaseLifecycle V W → Result LifecycleError (CaseLifecycle V W)
  verify_input_integrity phase s = do
    verify_fixtures s.world s.fixtures
    ok (record s { integrity_checks = s.integrity_checks ++ phase ∷ [] })

  -- `_prepare`, on fixture A
  unfoldable pub prepare_graph :
      Plugin V → CaseLifecycle V W → Result LifecycleError (Candidate V × W)
  prepare_graph plugin s = do
    raise_if (not (plugin.supports s.case)) unsupported_case
    elim (get s.fixtures "A") [
      | none ↦ err unknown_fixture
      | some fixture ↦ elim (plugin.prepare s.case fixture.inputs s.mode) [
        | none ↦ err prepare_raised
        | some graph ↦ do
          raise_if (not (graph.descriptor.plugin_id == plugin.plugin_id)) descriptor_mismatch
          raise_if (not (contains (keys graph.initial_artifacts) "inputs")) inputs_not_exposed
          nodes ← map_err graph_error (validate_graph graph)
          ok (record { graph = graph; nodes = nodes }, host.prepared fixture.inputs s.world)
      ]
    ]

  unfoldable pub bound_artifacts :
      Candidate V → CaseLifecycle V W → String → Result LifecycleError (ArtifactStore V)
  bound_artifacts c s fixture_id = elim (get s.fixtures fixture_id) [
    | none ↦ err unknown_fixture
    | some fixture ↦ ok (put c.graph.initial_artifacts "inputs" fixture.inputs)
  ]

  -- `execute`, without a stage context; the outputs and the world that the stages leave behind
  unfoldable pub execute :
      Candidate V
      → CaseLifecycle V W
      → String
      → ℕ
      → Bool
      → Result LifecycleError (ArtifactStore V × W)
  execute c s fixture_id iteration validate = do
    let context : ExecutionContext = record { case = s.case; mode = s.mode; iteration = iteration }
    artifacts ← bound_artifacts c s fixture_id
    outputs ← map_err graph_error (execute_prevalidated c.nodes context artifacts none validate).0
    ok (outputs, host.executed context artifacts s.world)

  -- The checks on the reference's outputs, and the oracle that they give.
  unfoldable pub add_oracle :
      CaseLifecycle V W → String → V → V → W → Result LifecycleError (CaseLifecycle V W)
  add_oracle s fixture_id logits output world = do
    let indices = host.as_tensor output
    checked ← map_err correctness_error (validate_topk_indices sort (tensor indices) s.case)
    (summary, ties) ←
        map_err correctness_error
          (build_score_threshold_oracle sort finite topk (host.as_scores logits) indices s.case)
    ok (record s {
      oracles = put s.oracles fixture_id (record {
        indices = indices;
        output_check = checked;
        cutoff_tie_check = summary;
        cutoff_tie_rows = ties;
      });
      world = world;
    })

  -- One round of the loop of `build_oracles`.
  unfoldable pub build_oracle :
      Candidate V → CaseLifecycle V W → String → ℕ → Result LifecycleError (CaseLifecycle V W)
  build_oracle reference s fixture_id iteration = do
    (outputs, world) ← execute reference s fixture_id iteration true
    elim (get outputs "logits") [
      | none ↦ err no_logits
      | some logits ↦ elim (get outputs reference.graph.terminal_artifact) [
        | none ↦ err no_terminal_artifact
        | some output ↦ add_oracle s fixture_id logits output world
      ]
    ]

  unfoldable pub build_oracles :
      Plugin V → CaseLifecycle V W → Result LifecycleError (CaseLifecycle V W)
  build_oracles plugin s = do
    (reference, world) ← prepare_graph plugin s
    first ← build_oracle reference (record s { world = world }) "A" 0
    second ← build_oracle reference first "B" 1
    verify_input_integrity "before_candidate" second

  unfoldable pub prepare_candidate :
      Plugin V → CaseLifecycle V W → Result LifecycleError (CaseLifecycle V W)
  prepare_candidate plugin s = do
    raise_if (no_oracles s.oracles) oracles_first
    (c, world) ← prepare_graph plugin s
    checked ← verify_input_integrity "candidate_prepare" (record s { world = world })
    ok (record checked { candidate = some c })

  -- The terminal contract and the comparison with a fixture's oracle.
  unfoldable pub check_output :
      PrefillCase → OracleState → V → Result LifecycleError (OutputCheck × ComparisonCheck)
  check_output case oracle output = do
    let indices = tensor (host.as_tensor output)
    contract ← map_err correctness_error (validate_topk_indices sort indices case)
    exact ← map_err correctness_error (
        compare_topk_indices sort indices (tensor oracle.indices) case
          (some oracle.cutoff_tie_rows))
    ok (contract, exact)

  unfoldable pub validate_outputs :
      CaseLifecycle V W
      → ArtifactStore V
      → String
      → Result LifecycleError (OutputCheck × ComparisonCheck)
  validate_outputs s outputs fixture_id = elim s.candidate [
    | none ↦ err candidate_first
    | some c ↦ elim (get s.oracles fixture_id) [
      | none ↦ err unknown_fixture
      | some oracle ↦ elim (get outputs c.graph.terminal_artifact) [
        | none ↦ err no_terminal_artifact
        | some output ↦ check_output s.case oracle output
      ]
    ]
  ]

  -- The loop of `check_candidate`, from one offset on.
  unfoldable pub check_fixtures :
      Candidate V → CaseLifecycle V W → List String → ℕ → Result LifecycleError (CaseLifecycle V W)
  check_fixtures c s [] iteration = ok s
  check_fixtures c s (fixture_id ∷ order) iteration = do
    (outputs, world) ← execute c s fixture_id iteration true
    result ← validate_outputs s outputs fixture_id
    check_fixtures c (record s { world = world }) order (suc iteration)

  unfoldable pub check_candidate :
      String → List String → ℕ → CaseLifecycle V W → Result LifecycleError (CaseLifecycle V W)
  check_candidate phase order start_iteration s = elim s.candidate [
    | none ↦ err candidate_first
    | some c ↦ do
      checked ← check_fixtures c s order start_iteration
      verify_input_integrity phase checked
  ]

  -- The loop of `warmup_candidate`, with the rounds that are left and the iteration's number.
  unfoldable pub warmup_rounds :
      Candidate V → CaseLifecycle V W → ℕ → ℕ → Result LifecycleError (CaseLifecycle V W)
  warmup_rounds c s zero iteration = ok s
  warmup_rounds c s (suc rounds) iteration = do
    (outputs, world) ← execute c s (if eqb (iteration % 2) 0 then "A" else "B") iteration false
    raise_if (not (contains (keys outputs) c.graph.terminal_artifact)) no_terminal_artifact
    warmup_rounds c (record s { world = world }) rounds (suc iteration)

  unfoldable pub warmup_candidate :
      ℕ → CaseLifecycle V W → Result LifecycleError (CaseLifecycle V W)
  warmup_candidate iterations s = elim s.candidate [
    | none ↦ err candidate_first
    | some c ↦ warmup_rounds c s iterations 0
  ]
