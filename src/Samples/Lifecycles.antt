-- ===== src/Samples/Lifecycles.antt =====
-- A lifecycle of the small case with the tie: the candidate substitutes one of the tied positions.
use fused_index_top_k.Api.{correctness, PreparedGraph}
use fused_index_top_k.Base.{
  ℕ, suc, String, ◌≡◌, refl, true, none, some, List, [], ◌∷◌, put, ok, insert_sorted, sorted,
  frozenset,
}
use fused_index_top_k.Correctness.{tie_accepts, validate_tied_row}
use fused_index_top_k.Correctness.Tensor.{
  Tensor, check_tensor, compare_tensor_row, compare_tensor_rows,
}
use fused_index_top_k.Correctness.Compare.{validate_topk_indices, compare_topk_indices}
use fused_index_top_k.Correctness.Oracle.{
  Scores, eligible_rows, tie_of, tie_loop, check_views, oracle_of_views,
  build_score_threshold_oracle,
}
use fused_index_top_k.Graph.Topological.{
  topological_nodes, topological_names, add_dependencies, add_stages, release_child, release, place,
}
use fused_index_top_k.Graph.Validate.{
  safe_id, first_unsafe, ancestor_table, declare_produced, declare_all, check_stage, check_stages,
  check_terminal, validate_graph,
}
use fused_index_top_k.Graph.Execute.{
  execute_nodes, execute_prevalidated, run_stage, run_within, check_produced,
}
use fused_index_top_k.Lifecycle.{
  FixtureState, OracleState, Plugin, Host, Candidate, CaseLifecycle, create_fixture, create,
  verify_fixtures, verify_input_integrity, prepare_graph, bound_artifacts, execute, add_oracle,
  build_oracle, build_oracles, prepare_candidate, check_output, validate_outputs, check_fixtures,
  check_candidate,
}
use fused_index_top_k.Lifecycle.Exactness.Whole.{ExactOn, check_candidate-ExactOn}
use fused_index_top_k.Samples.Comparison.{case, finite, scores, baseline, candidate, summary, ties}
use fused_index_top_k.Samples.Sorting.{sort, topk}

-- An artifact: the inputs of a fixture, scores, or indices.
data Artifact : Type 0 where
  inputs_of : String → Artifact
  scored : Scores → Artifact
  selected : Tensor → Artifact

abbrev tensor_of : Artifact → Tensor
tensor_of (inputs_of id) = baseline
tensor_of (scored s) = baseline
tensor_of (selected t) = t

abbrev scores_of : Artifact → Scores
scores_of (inputs_of id) = scores
scores_of (scored s) = s
scores_of (selected t) = scores

abbrev name_of : Artifact → String
name_of (inputs_of id) = id
name_of (scored s) = "scores"
name_of (selected t) = "indices"

abbrev host : Host Artifact ℕ
host = record {
  make_inputs = λ c id. inputs_of id;
  case_matches = λ c v. true;
  fixture_of = name_of;
  inputs_valid = λ v. true;
  content = λ w v. name_of v;
  versions = λ w v. 0 ∷ [];
  as_tensor = tensor_of;
  as_scores = scores_of;
  prepared = λ v w. suc w;
  executed = λ context artifacts w. suc w;
}

abbrev graph_of : String → Tensor → PreparedGraph Artifact
graph_of id indices = record {
  descriptor = record {
    plugin_id = id;
    display_name = id;
    api_version = "1.0";
    implementation_version = "1";
    mode = "fused";
    description = "";
    implementation = "";
    exact_topk = true;
    source_revision = none;
    supported_arches = [];
    tags = [];
  };
  nodes =
      record {
        spec = record {
          stage_id = "all";
          dependencies = [];
          consumes = "inputs" ∷ [];
          produces = "logits" ∷ "indices" ∷ [];
          semantic_ops = "indexer" ∷ "topk" ∷ [];
          description = "";
          profile = true;
          kernel_regexes = [];
        };
        run = λ context store.
            some (put (put store "logits" (scored scores)) "indices" (selected indices));
      }
      ∷ [];
  initial_artifacts = ("inputs", inputs_of "A") ∷ [];
  terminal_artifact = "indices";
}

abbrev plugin_of : String → Tensor → Plugin Artifact
plugin_of id indices = record {
  plugin_id = id;
  supports = λ c. true;
  prepare = λ c inputs mode. some (graph_of id indices);
}

abbrev fixture : String → FixtureState Artifact
fixture id = record { inputs = inputs_of id; content_before = id; versions_before = 0 ∷ [] }

abbrev oracle : OracleState
oracle = record {
  indices = baseline;
  output_check = record { rows = 2; top_k = 2; valid_ids = 4; padding_ids = 0 };
  cutoff_tie_check = summary;
  cutoff_tie_rows = ties;
}

abbrev state : List String → ℕ → CaseLifecycle Artifact ℕ
state checks world = record {
  case = case;
  mode = correctness;
  fixtures = ("A", fixture "A") ∷ ("B", fixture "B") ∷ [];
  oracles = ("A", oracle) ∷ ("B", oracle) ∷ [];
  candidate = none;
  integrity_checks = checks;
  world = world;
}

abbrev prepared_candidate : Candidate Artifact
prepared_candidate = record {
  graph = graph_of "candidate" candidate;
  nodes = (graph_of "candidate" candidate).nodes;
}

abbrev first : CaseLifecycle Artifact ℕ
first = record (state [] 0) { oracles = [] }

abbrev built : CaseLifecycle Artifact ℕ
built = state ("before_candidate" ∷ []) 3

abbrev prepared : CaseLifecycle Artifact ℕ
prepared = record (state ("before_candidate" ∷ "candidate_prepare" ∷ []) 4) {
  candidate = some prepared_candidate;
}

abbrev last : CaseLifecycle Artifact ℕ
last = record (state ("before_candidate" ∷ "candidate_prepare" ∷ "final" ∷ []) 6) {
  candidate = some prepared_candidate;
}

created : create sort finite topk host case correctness 0 ≡ ok first
unfolding create create_fixture
created = refl

oracles_built :
    build_oracles sort finite topk host (plugin_of "reference" baseline) first ≡ ok built
unfolding build_oracles build_oracle add_oracle prepare_graph execute bound_artifacts
    verify_input_integrity verify_fixtures validate_graph safe_id first_unsafe ancestor_table
    declare_produced declare_all check_stage check_stages check_terminal topological_nodes
    topological_names add_dependencies add_stages release_child release place execute_prevalidated
    execute_nodes run_within run_stage check_produced build_score_threshold_oracle
    validate_topk_indices check_tensor eligible_rows oracle_of_views check_views tie_loop tie_of
    sorted insert_sorted frozenset
oracles_built = refl

candidate_prepared :
    prepare_candidate sort finite topk host (plugin_of "candidate" candidate) built ≡ ok prepared
unfolding prepare_candidate prepare_graph verify_input_integrity verify_fixtures validate_graph
    safe_id first_unsafe ancestor_table declare_produced declare_all check_stage check_stages
    check_terminal topological_nodes topological_names add_dependencies add_stages release_child
    release place sorted insert_sorted frozenset
candidate_prepared = refl

candidate_checked :
    check_candidate sort finite topk host "final" ("A" ∷ "B" ∷ []) 0 prepared ≡ ok last
unfolding check_candidate check_fixtures validate_outputs check_output execute bound_artifacts
    verify_input_integrity verify_fixtures execute_prevalidated execute_nodes run_within run_stage
    check_produced validate_topk_indices check_tensor compare_topk_indices compare_tensor_rows
    compare_tensor_row validate_tied_row tie_accepts sorted insert_sorted frozenset
candidate_checked = refl

check_candidate-ExactOn_example : ExactOn sort finite topk host first prepared last "B"
check_candidate-ExactOn_example =
    check_candidate-ExactOn sort finite topk host case correctness 0
      (plugin_of "reference" baseline) (plugin_of "candidate" candidate) "final" ("A" ∷ "B" ∷ []) 0
      first built prepared last "B" created oracles_built candidate_prepared candidate_checked refl
