-- ===== src/Kineto/Trials.antt =====
-- kineto.py: the trials of a profile and the gate on their topology.
use fused_index_top_k.Base.{
  ℕ, ◌+◌, String, Bool, true, false, not, ◌&&◌, Option, none, some, List, [], ◌∷◌, map, eqb, Eq,
  ◌==◌, string_eq, length, range, Result, ok, err, ◌>>=◌, ◌>>◌, raise_if, Dict, get, put,
}
use fused_index_top_k.Config.Read.{collect}
use fused_index_top_k.Kineto.{
  Event, Clock, KinetoError, no_trials, empty_topology, operator_changed, stage_changed,
  kernel_coverage, activity_coverage, kernel_timing, activity_timing, missing_stage,
  operator_range_name, stage_range_name,
}
use fused_index_top_k.Kineto.Timing.{
  ActivityKind, memory, kernel, ActivityRecord, RangeTiming, sum_from, extract_range_timing,
}

pub record Trial (T : Type 0) : Type 0 where
  pub trial_id : ℕ
  pub operator : RangeTiming T
  pub stages : Dict (RangeTiming T)

module _ {I T : Type 0} ⦃i : Eq I⦄ (clock : Clock T) where
  unfoldable pub stage_timings :
      List (Event I T)
      → ℕ
      → List String
      → Dict (RangeTiming T)
      → Result KinetoError (Dict (RangeTiming T))
  stage_timings events trial_id [] timings = ok timings
  stage_timings events trial_id (stage_id ∷ stage_ids) timings = do
    timing ← extract_range_timing clock events (stage_range_name 1 trial_id stage_id)
    stage_timings events trial_id stage_ids (put timings stage_id timing)

  unfoldable pub extract_trial : List (Event I T) → List String → ℕ → Result KinetoError (Trial T)
  extract_trial events stage_ids trial_id = do
    operator ← extract_range_timing clock events (operator_range_name 1 trial_id)
    stages ← stage_timings events trial_id stage_ids []
    ok (record { trial_id = trial_id; operator = operator; stages = stages })

  unfoldable pub extract_active_trials :
      List (Event I T) → ℕ → List String → Result KinetoError (List (Trial T))
  extract_active_trials events trials stage_ids =
      collect (extract_trial events stage_ids) (range trials)

-- The kinds and names of a range's activities, in order.
abbrev pub Signature : Type 0
Signature = List (ActivityKind × String)

abbrev pub signature : {T : Type 0} → RangeTiming T → Signature
signature {T} timing = map (λ (r : ActivityRecord T). (r.kind, r.activity_name)) timing.activities

abbrev pub same_kind : ActivityKind → ActivityKind → Bool
same_kind memory memory = true
same_kind kernel kernel = true
same_kind memory kernel = false
same_kind kernel memory = false

unfoldable pub same_signature : Signature → Signature → Bool
same_signature [] [] = true
same_signature [] (y ∷ ys) = false
same_signature (x ∷ xs) [] = false
same_signature (x ∷ xs) (y ∷ ys) = same_kind x.0 y.0 && x.1 == y.1 && same_signature xs ys

pub record Topology : Type 0 where
  pub trial_count : ℕ
  pub operator_kernel_count : ℕ
  pub operator_activity_count : ℕ
  pub stage_kernel_counts : Dict ℕ
  pub stage_activity_counts : Dict ℕ

abbrev pub sum_counts : List ℕ → ℕ
sum_counts [] = 0
sum_counts (n ∷ ns) = n + sum_counts ns

module _ {T : Type 0} where
  -- `trial["stages"][stage_id]`
  unfoldable pub stage_of : Trial T → String → Result KinetoError (RangeTiming T)
  stage_of trial stage_id = elim (get trial.stages stage_id) [
    | none ↦ err missing_stage
    | some timing ↦ ok timing
  ]

  -- A dictionary over the stage IDs.
  unfoldable pub stage_table :
      {A : Type 0}
      → (RangeTiming T → A)
      → Trial T
      → List String
      → Dict A
      → Result KinetoError (Dict A)
  stage_table f trial [] table = ok table
  stage_table f trial (stage_id ∷ rest) table = do
    timing ← stage_of trial stage_id
    stage_table f trial rest (put table stage_id (f timing))

  abbrev pub check_signature : RangeTiming T → Option Signature → Result KinetoError (Unit {0})
  check_signature timing none = err missing_stage
  check_signature timing (some expected) =
      raise_if (not (same_signature (signature timing) expected)) stage_changed

  unfoldable pub check_stage_signatures :
      Dict Signature → Trial T → List String → Result KinetoError (Unit {0})
  check_stage_signatures expected trial [] = ok tt
  check_stage_signatures expected trial (stage_id ∷ rest) = do
    timing ← stage_of trial stage_id
    check_signature timing (get expected stage_id)
    check_stage_signatures expected trial rest

module _ {T : Type 0} (clock : Clock T) where
  unfoldable pub check_coverage :
      RangeTiming T → List (RangeTiming T) → Result KinetoError (Unit {0})
  check_coverage operator stages = do
    let kernels = sum_counts (map (λ (s : RangeTiming T). s.kernel_count) stages)
    let activities = sum_counts (map (λ (s : RangeTiming T). s.activity_count) stages)
    let kernel_sum =
        sum_from clock clock.zero_time (map (λ (s : RangeTiming T). s.kernel_sum_us) stages)
    let activity_sum =
        sum_from clock clock.zero_time (map (λ (s : RangeTiming T). s.activity_sum_us) stages)
    raise_if (not (eqb kernels operator.kernel_count)) kernel_coverage
    raise_if (not (eqb activities operator.activity_count)) activity_coverage
    raise_if (clock.far_apart kernel_sum operator.kernel_sum_us) kernel_timing
    raise_if (clock.far_apart activity_sum operator.activity_sum_us) activity_timing

  unfoldable pub check_trial :
      Signature → Dict Signature → List String → Trial T → Result KinetoError (Unit {0})
  check_trial expected_operator expected_stages stage_ids trial = do
    raise_if (not (same_signature (signature trial.operator) expected_operator)) operator_changed
    check_stage_signatures expected_stages trial stage_ids
    stages ← collect (stage_of trial) stage_ids
    check_coverage trial.operator stages

  unfoldable pub check_trials :
      Signature → Dict Signature → List String → List (Trial T) → Result KinetoError (Unit {0})
  check_trials expected_operator expected_stages stage_ids [] = ok tt
  check_trials expected_operator expected_stages stage_ids (trial ∷ trials) = do
    check_trial expected_operator expected_stages stage_ids trial
    check_trials expected_operator expected_stages stage_ids trials

  unfoldable pub validate_trial_topology :
      List (Trial T) → List String → Result KinetoError Topology
  validate_trial_topology [] stage_ids = err no_trials
  validate_trial_topology (first ∷ rest) stage_ids = do
    let expected_operator = signature first.operator
    raise_if (eqb (length expected_operator) 0) empty_topology
    expected_stages ← stage_table signature first stage_ids []
    check_trials expected_operator expected_stages stage_ids (first ∷ rest)
    kernel_counts ← stage_table (λ (s : RangeTiming T). s.kernel_count) first stage_ids []
    activity_counts ← stage_table (λ (s : RangeTiming T). s.activity_count) first stage_ids []
    ok (record {
      trial_count = length (first ∷ rest);
      operator_kernel_count = first.operator.kernel_count;
      operator_activity_count = first.operator.activity_count;
      stage_kernel_counts = kernel_counts;
      stage_activity_counts = activity_counts;
    })
