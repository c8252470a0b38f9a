-- ===== src/Lib.antt =====
-- FusedIndexTopK: exact TopK over indexer scores, with the framework that validates, executes and
-- compares its variants.
--
-- The program prepares a variant for a Prefill case as a graph of physical stages, validates the
-- graph, executes it on one stream and compares its indices with those of an exact reference. These
-- modules model the host code in Python, and the checks on sizes before a launch.
--
-- Modules and code (paths in the repository):
--   Api           src/fused_index_topk/api.py: cases, stage specifications, nodes, graphs
--   Correctness   src/fused_index_topk/correctness.py: the output contract. Correctness has
--                 _validated_sets and validate_tied_row, Correctness.Tensor the vectorized
--                 _validate_torch_tensor and the rows of compare_topk_indices, Correctness.Compare the
--                 public entry points, Correctness.Oracle build_score_threshold_oracle
--   Graph         src/fused_index_topk/graph.py: Graph.Topological has topological_nodes,
--                 Graph.Validate validate_graph, Graph.Execute execute_prevalidated and execute_graph
--   Variants      src/fused_index_topk/variants/common.py: supports_frozen_deepgemm_case
--   Kernel        src/fused_index_topk/kernel/plugin.py and kernel/sampling.py: the sampling schedule,
--                 supported cases and repair chunks; Kernel.Plugin has prepare and the stages'
--                 callables, Kernel.Specs their specifications, Kernel.Host the checks that the
--                 entry points of kernel/csrc make on sizes and numbers before a launch
--   Lifecycle     src/fused_index_topk/lifecycle.py: CaseLifecycle, whose methods are functions from one
--                 state to the next; it calls Graph and Correctness
--   Variants.Stages, Variants.DeepgemmTorch
--                 src/fused_index_topk/variants/common.py and deepgemm_torch.py: the shared stages and
--                 the exact reference
--   Config        src/fused_index_topk/config.py: Config.Read has the readers, Config.Workload,
--                 Config.Timing, Config.Profiling and Config.Parse the parts of parse_config, and
--                 Config.Cases the methods of LabConfig; the cases are what Graph and Kernel take
--   Nvtx          src/fused_index_topk/nvtx.py: the labels of profiler ranges
--   Kineto        src/fused_index_topk/kineto.py: Kineto has the loop over the tree of events,
--                 Kineto.Timing extract_range_timing, Kineto.Trials the trials and their gate
--   Campaign      src/fused_index_topk/campaign.py: the plan of build_campaign_plan and the decision of
--                 seal_campaign
--   Comparison    src/fused_index_topk/comparison.py: _fixture_gate_errors and _input_evidence_errors
--   Summary       src/fused_index_topk/summary.py: normalize_measurement
--   Base          lists, sets, dictionaries, integers and error results for all of them
--   Samples       concrete inputs
--
-- State and errors. A stage's callable takes the artifact store and returns the store that it leaves
-- behind, or raises. An execution also returns the trace of its range pushes, range pops and stages,
-- which outlives an exception. An exception is a value that names the check that raised and, where the
-- message has it, the row, stage or artifact; the other text of messages is left out. Dictionaries
-- are lists of pairs in insertion order, sets are lists that are compared by their members.
--
-- Parameters. torch.sort and torch.topk are functions with the laws that PyTorch documents
-- (SortLaws, TopKLaws). A score is its rank among the FP32 values, since the code only compares
-- scores; torch.isfinite is a test on ranks. What the device does in a launch returns or raises
-- (Launches), and a theorem that needs it to return says so (LaunchesReturn). A floating-point
-- number of a configuration, the time of a profiled event and its ID are of any type with the
-- operations that the code uses (Floats, Clock, Measures, Eq), and so are the hash and the
-- equality of decoded values (Hashing) and Python's int, float and str (Coercions). The
-- arithmetic in guarded_sample_rank is of any type too (Doubles); math.ceil may raise there. The
-- JSON text and the SHA-256 digest behind canonical_hash are parameters of Hashing.
--
-- Fuel. The while loop of topological_nodes has the number of stages as fuel. Each round places one
-- stage that was not placed before, so the loop ends within it; the theorem that an acyclic graph
-- always gets an order shows that the fuel is never short there. The stack of
-- _correlated_cuda_ids has the number of events in the tree as fuel, which is proved to be enough. All
-- other loops are structural.
--
-- Not modelled: device code and the loaders of the extensions, tensor generation, process handling,
-- profiler and report files, the reading of configuration files, fingerprints and the command line.
pub mod Base
pub mod Api
pub mod Correctness
pub mod Graph
pub mod Variants
pub mod Kernel
pub mod Lifecycle
pub mod Nvtx
pub mod Config
pub mod Kineto
pub mod Campaign
pub mod Comparison
pub mod Summary
pub mod Samples
