-- ===== src/Kineto/Attribution.antt =====
-- `extract_range_timing` attributes to a range exactly the activities that were launched below it.
use fused_index_top_k.Base.{
  ◌≤◌, ◌≡◌, false, map, ◌∙◌, refl, ap, ◌↔◌, inl, inr, String, List, [], ◌∷◌, eqb, Eq, string_eq,
  nat_eq, length, filterb, Member, ok, raise_if, >>=-eq-ok, returned, sorted, arith,
  length-filterb-le,
}
use fused_index_top_k.Kineto.{Event, Clock, no_launches, correlated_cuda_ids}
use fused_index_top_k.Kineto.Timing.{
  ActivityRecord, Identity, RangeTiming, is_kernel_kind, record_leb, timing_of, finish_timing,
  select_records, is_range, only_range, extract_range_timing,
}
use fused_index_top_k.Graph.Validate.Parts.{>>-ok}
use fused_index_top_k.Kineto.Activities.{AreDistinct, record_of_identity, select_records-IsChosen}
use fused_index_top_k.Kineto.Attributed.{true_and_false, Attributed, Selects-Attributed}

module _ {T : Type 0} (clock : Clock T) where
  finish_timing-activities :
      (name : String) (records : List (ActivityRecord T)) (timing : RangeTiming T)
      → finish_timing clock name records ≡ ok timing
      → (timing.activities ≡ records)
        × (timing.activity_count ≡ length timing.activities)
        × (1 ≤ timing.activity_count)
        × (timing.kernel_count
            ≡ length (filterb (λ (r : ActivityRecord T). is_kernel_kind r.kind) timing.activities))
  unfolding finish_timing timing_of
  finish_timing-activities name [] timing h = ground arith
  finish_timing-activities name (first ∷ rest) timing h =
      returned
        (λ (t : RangeTiming T).
          (t.activities ≡ first ∷ rest)
          × (t.activity_count ≡ length t.activities)
          × (1 ≤ t.activity_count)
          × (t.kernel_count
              ≡ length (filterb (λ (r : ActivityRecord T). is_kernel_kind r.kind) t.activities)))
        h (refl, refl, omega arith, refl)

module _ {I T : Type 0} ⦃i : Eq I⦄ (clock : Clock T) where
  only_range-eq-ok :
      (xs : List (Event I T)) (root : Event I T) → only_range clock xs ≡ ok root → xs ≡ root ∷ []
  unfolding only_range
  only_range-eq-ok [] root h = ground arith
  only_range-eq-ok (e ∷ []) root h = ap (λ x. x ∷ []) (returned (λ x. e ≡ x) h refl)
  only_range-eq-ok (e ∷ f ∷ xs) root h = ground arith

  -- What a timing says of the events.
  pub record IsTimingOf (events : List (Event I T)) (name : String) (timing : RangeTiming T)
      : Type 0 where
    pub root : Event I T
    pub one_range : filterb (is_range clock name) events ≡ root ∷ []
    pub chosen : List (Identity I T)
    pub attributed :
        (x : Identity I T)
        → (Member x chosen) ↔ ((e : Event I T) × Member e events × Attributed clock root e x)
    pub once : AreDistinct chosen
    pub listed :
        timing.activities ≡ sorted (record_leb clock) (map (record_of_identity clock) chosen)
    pub counted : timing.activity_count ≡ length timing.activities
    pub some_activity : 1 ≤ timing.activity_count
    pub kernels_counted :
        timing.kernel_count
        ≡ length (filterb (λ (r : ActivityRecord T). is_kernel_kind r.kind) timing.activities)
    pub kernels_fit : timing.kernel_count ≤ timing.activity_count

  -- A timing that `extract_range_timing` returns is of the one CPU range with the name. There is a
  -- list without repetition of IDs, names and time ranges that holds exactly those of the CUDA
  -- activities below the range: the events on a CUDA device with the ID of a CUDA call in the tree
  -- below the range, with a name that is neither empty nor that of a range of ours, and with a time
  -- range that does not end before it starts and is not empty. The timing's activities are the
  -- records of that list, one for each entry, in order of time; there is at least one, and the
  -- timing counts them and the kernels among them.
  pub extract_range_timing-IsTimingOf :
      (events : List (Event I T)) (name : String) (timing : RangeTiming T)
      → extract_range_timing clock events name ≡ ok timing
      → IsTimingOf events name timing
  unfolding extract_range_timing
  extract_range_timing-IsTimingOf events name timing h =
      let (root, one, h1) =
        >>=-eq-ok (only_range clock (filterb (is_range clock name) events)) _ h in
      let ids = correlated_cuda_ids root in
      let (_, h2) = >>-ok (raise_if (eqb (length ids) 0) no_launches) _ h1 in
      let (records, selected, h3) = >>=-eq-ok (select_records clock ids events []) _ h2 in
      let ordered = sorted (record_leb clock) records in
      let (same, counted, positive, kernels) =
        finish_timing-activities clock name ordered timing h3 in
      let choice = select_records-IsChosen clock ids events [] records selected in
      record {
        root = root;
        one_range = only_range-eq-ok (filterb (is_range clock name) events) root one;
        chosen = choice.chosen;
        attributed = λ x. (
          λ m. let (e, n, s) = choice.found x m in (e, n, (Selects-Attributed clock root e x).0 s),
          λ found.
              let (e, n, a) = found in
              elim (choice.complete e x n ((Selects-Attributed clock root e x).1 a)) [
                | inl never ↦ absurd (true_and_false false never refl)
                | inr there ↦ there
              ],
        );
        once = choice.distinct;
        listed = same ∙ ap (sorted (record_leb clock)) choice.made;
        counted = counted;
        some_activity = positive;
        kernels_counted = kernels;
        kernels_fit = omega (
          arith,
          kernels,
          counted,
          length-filterb-le (λ (r : ActivityRecord T). is_kernel_kind r.kind) timing.activities,
        );
      }
