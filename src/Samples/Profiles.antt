-- ===== src/Samples/Profiles.antt =====
-- A profile of one trial with one stage and one kernel; a time is a number.
use fused_index_top_k.Base.{
  ℕ, ◌+◌, ◌-◌, ◌≤◌, ◌≡◌, refl, String, not, Option, none, some, List, [], ◌∷◌, ltb, eqb, string_eq,
  nat_eq, length, contains, ok, sorted, insert_sorted,
}
use fused_index_top_k.Kineto.{
  Event, event, Events, no_events, child, cpu_children, Clock, operator_range_name,
  stage_range_name, is_cuda_runtime_activity, size, collect_ids, correlated_cuda_ids,
}
use fused_index_top_k.Kineto.Timing.{
  is_memory_activity, kernel, ActivityRecord, RangeTiming, time_range_of, timing_of, finish_timing,
  selected_id, select_records, only_range, extract_range_timing,
}
use fused_index_top_k.Kineto.Trials.{
  Trial, stage_timings, extract_trial, extract_active_trials, signature, same_signature, Topology,
  stage_of, stage_table, check_stage_signatures, check_coverage, check_trial, check_trials,
  validate_trial_topology,
}
use fused_index_top_k.Config.Cases.{decimal}
use fused_index_top_k.Kineto.Ids.{launches_below, contains-correlated_cuda_ids}
use fused_index_top_k.Kineto.Attribution.{IsTimingOf, extract_range_timing-IsTimingOf}
use fused_index_top_k.Kineto.Topology.{AllLike, validate_trial_topology-AllLike}

abbrev clock : Clock ℕ
clock = record {
  time_eq = nat_eq;
  before = ltb;
  minus = λ a b. a - b;
  plus = λ a b. a + b;
  zero_time = 0;
  far_apart = λ a b. not (eqb a b);
}

abbrev event_of : String → String → Option ℕ → Option (ℕ × ℕ) → Events ℕ ℕ → Event ℕ ℕ
event_of name device id time_range children =
    event (record { name = name; device = device; id = id; time_range = time_range }) children

-- A launch below an operator call, whose own ID is that of another kernel.
abbrev launch : Event ℕ ℕ
launch = event_of "cudaLaunchKernel" "CPU" (some 5) none no_events

abbrev range_event : String → Event ℕ ℕ
range_event name =
    event_of name "CPU" (some 1) none
      (child (event_of "aten::topk" "CPU" (some 6) none (child launch no_events)) no_events)

abbrev events : List (Event ℕ ℕ)
events =
    range_event "ITK::KINETO::OPERATOR::P1::T0000"
    ∷ range_event "ITK::KINETO::STAGE::P1::T0000::topk"
    ∷ event_of "memset" "CUDA" (some 6) (some (1, 9)) no_events
    ∷ event_of "topk_kernel" "CUDA" (some 5) (some (10, 12)) no_events
    ∷ []

abbrev activity : ActivityRecord ℕ
activity = record {
  activity_name = "topk_kernel";
  start_us = 10;
  end_us = 12;
  duration_us = 2;
  kind = kernel;
}

abbrev timing : String → RangeTiming ℕ
timing name = record {
  timed_range = name;
  kernel_sum_us = 2;
  activity_sum_us = 2;
  device_span_us = 2;
  gap_us = 0;
  kernel_count = 1;
  activity_count = 1;
  activities = activity ∷ [];
}

contains-correlated_cuda_ids_example :
    contains (correlated_cuda_ids (range_event "r")) 5
    ≡ launches_below (cpu_children (range_event "r")) 5
contains-correlated_cuda_ids_example = contains-correlated_cuda_ids (range_event "r") 5

extracted :
    extract_range_timing clock events "ITK::KINETO::OPERATOR::P1::T0000"
    ≡ ok (timing "ITK::KINETO::OPERATOR::P1::T0000")
unfolding extract_range_timing only_range select_records selected_id time_range_of
    correlated_cuda_ids collect_ids size is_cuda_runtime_activity is_memory_activity finish_timing
    timing_of sorted insert_sorted
extracted = refl

extract_range_timing-IsTimingOf_example :
    IsTimingOf clock events "ITK::KINETO::OPERATOR::P1::T0000"
      (timing "ITK::KINETO::OPERATOR::P1::T0000")
extract_range_timing-IsTimingOf_example =
    extract_range_timing-IsTimingOf clock events "ITK::KINETO::OPERATOR::P1::T0000"
      (timing "ITK::KINETO::OPERATOR::P1::T0000") extracted

abbrev trial : Trial ℕ
trial = record {
  trial_id = 0;
  operator = timing "ITK::KINETO::OPERATOR::P1::T0000";
  stages = ("topk", timing "ITK::KINETO::STAGE::P1::T0000::topk") ∷ [];
}

trials_extracted : extract_active_trials clock events 1 ("topk" ∷ []) ≡ ok (trial ∷ [])
unfolding extract_active_trials extract_trial stage_timings operator_range_name stage_range_name
    decimal extract_range_timing only_range select_records selected_id time_range_of
    correlated_cuda_ids collect_ids size is_cuda_runtime_activity is_memory_activity finish_timing
    timing_of sorted insert_sorted
trials_extracted = refl

abbrev topology : Topology
topology = record {
  trial_count = 1;
  operator_kernel_count = 1;
  operator_activity_count = 1;
  stage_kernel_counts = ("topk", 1) ∷ [];
  stage_activity_counts = ("topk", 1) ∷ [];
}

gated : validate_trial_topology clock (trial ∷ []) ("topk" ∷ []) ≡ ok topology
unfolding validate_trial_topology check_trials check_trial check_coverage check_stage_signatures
    stage_table stage_of same_signature
gated = refl

validate_trial_topology-AllLike_example :
    AllLike trial ("topk" ∷ []) (trial ∷ []) × (1 ≤ length (signature trial.operator))
validate_trial_topology-AllLike_example =
    validate_trial_topology-AllLike clock trial [] ("topk" ∷ []) topology gated
