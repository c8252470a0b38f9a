-- ===== src/Config/Schedule.antt =====
-- The timing of an accepted configuration.
use fused_index_top_k.Base.{
  ℕ, ◌%◌, ◌≤◌, ◌<◌, ◌≡◌, refl, ◌⊎◌, inl, inr, String, Bool, true, false, not, List, [], ◌∷◌, leb,
  eqb, ◌==◌, string_eq, nat_eq, length, anyb, keys, ok, raise_if, >>=-eq-ok, raise_if-eq-ok,
  returned, arith, Bool-cases, Option-cases,
}
use fused_index_top_k.Config.{
  Json, null, boolean, integer, real, text, array, object, fields_of, Floats, bad_method,
  bad_flush_bytes, no_orders, wrong_order_count, bad_order, TimingConfig, shape_eq,
}
use fused_index_top_k.Config.Read.{
  collect, mapping, at, read_number, read_string, nonempty_list, string_at, integer_at,
}
use fused_index_top_k.Graph.Validate.Parts.{>>-ok}
use fused_index_top_k.Config.Readers.{All, integer_at-le}
use fused_index_top_k.Config.Timing.{
  legacy_timing_fields, campaign_timing_fields, kineto_timing_fields, same_set, TimingBranch,
  is_order, kineto_branch, legacy_branch, campaign_branch, choose_branch, read_orders,
  campaign_orders_of, parse_timing,
}
use fused_index_top_k.Config.Canonical.{checked_text}

-- What the branch of a schema fixes.
record IsBranch {F : Type 0} (version : ℕ) (branch : TimingBranch F) : Type 0 where
  branch_trials : 1 ≤ branch.branch_event_trials
  branch_repeats : (branch.branch_repetitions ≡ 1) ⊎ (3 ≤ branch.branch_repetitions)
  branch_kineto :
      4 ≤ version
      → (branch.branch_method ≡ "deepgemm_kineto_cupti_v1")
        × (1 ≤ branch.branch_kineto_trials)
        × (4 ≤ branch.branch_flush_bytes)
        × (branch.branch_flush_bytes % 4 ≡ 0)
        × (3 ≤ branch.branch_repetitions)
  branch_events :
      version < 4
      → (branch.branch_method ≡ "legacy_cuda_event_v1") × (branch.branch_kineto_trials ≡ 0)

-- The timing of a run: from schema 4 on Kineto trials and an aligned flush, before it CUDA events
-- alone; one order for each repetition of the campaign.
pub record IsTiming {F : Type 0} (fl : Floats F) (version : ℕ) (t : TimingConfig F) : Type 0 where
  pub some_trials : 1 ≤ t.event_trials
  pub repeats : (t.campaign_repetitions ≡ 1) ⊎ (3 ≤ t.campaign_repetitions)
  pub kineto :
      4 ≤ version
      → (t.method ≡ "deepgemm_kineto_cupti_v1")
        × (1 ≤ t.kineto_trials)
        × (4 ≤ t.l2_flush_bytes)
        × (t.l2_flush_bytes % 4 ≡ 0)
        × (3 ≤ t.campaign_repetitions)
  pub events : version < 4 → (t.method ≡ "legacy_cuda_event_v1") × (t.kineto_trials ≡ 0)
  pub order_each : length t.campaign_orders ≡ t.campaign_repetitions
  pub orders : All (λ order. is_order order ≡ true) t.campaign_orders
  pub cooldown :
      (fl.is_finite t.cooldown_seconds ≡ true) × (fl.is_negative t.cooldown_seconds ≡ false)

anyb-All :
    (p : String → Bool) (xs : List String)
    → anyb (λ x. not (p x)) xs ≡ false
    → All (λ x. p x ≡ true) xs
anyb-All p [] h = tt
anyb-All p (x ∷ xs) h = ground (arith, anyb-All p xs)

module _ {F : Type 0} where
  kineto_branch-IsBranch :
      (version : ℕ) (value : Json F) (branch : TimingBranch F)
      → 4 ≤ version
      → kineto_branch value ≡ ok branch
      → IsBranch version branch
  unfolding kineto_branch
  kineto_branch-IsBranch version value branch new h =
      let (raw, _, h1) = >>=-eq-ok (mapping value kineto_timing_fields) _ h in
      let (method, _, h2) = >>=-eq-ok (string_at raw "method") _ h1 in
      let (is, h3) =
        >>-ok (raise_if (not (method == "deepgemm_kineto_cupti_v1")) bad_method) _ h2 in
      let (events, e, h4) = >>=-eq-ok (integer_at 1 raw "event_trials") _ h3 in
      let (kineto, k, h5) = >>=-eq-ok (integer_at 1 raw "kineto_trials") _ h4 in
      let (flush, f, h6) = >>=-eq-ok (integer_at 4 raw "l2_flush_bytes") _ h5 in
      let (even, h7) = >>-ok (raise_if (not (eqb (flush % 4) 0)) bad_flush_bytes) _ h6 in
      let (repeats, r, h8) = >>=-eq-ok (integer_at 3 raw "campaign_repetitions") _ h7 in
      let three = integer_at-le 3 raw "campaign_repetitions" repeats r in
      returned (λ b. IsBranch version b) h8
        (record {
          branch_trials = integer_at-le 1 raw "event_trials" events e;
          branch_repeats = inr three;
          branch_kineto = λ n. (
            checked_text method "deepgemm_kineto_cupti_v1" bad_method is,
            integer_at-le 1 raw "kineto_trials" kineto k,
            integer_at-le 4 raw "l2_flush_bytes" flush f,
            ground arith,
            three,
          );
          branch_events = λ old. absurd (omega arith);
        })

  legacy_branch-IsBranch :
      (version : ℕ) (value : Json F) (branch : TimingBranch F)
      → version < 4
      → legacy_branch value ≡ ok branch
      → IsBranch version branch × (branch.branch_repetitions ≡ 1)
  unfolding legacy_branch
  legacy_branch-IsBranch version value branch old h =
      let (raw, _, h1) = >>=-eq-ok (mapping value legacy_timing_fields) _ h in
      let (events, e, h2) = >>=-eq-ok (integer_at 1 raw "clean_trials") _ h1 in
      let (flush, f, h3) = >>=-eq-ok (integer_at 0 raw "cache_scrub_bytes") _ h2 in
      returned (λ b. IsBranch version b × (b.branch_repetitions ≡ 1)) h3
        (
          record {
            branch_trials = integer_at-le 1 raw "clean_trials" events e;
            branch_repeats = inl refl;
            branch_kineto = λ n. absurd (omega arith);
            branch_events = λ o. (refl, refl);
          },
          refl,
        )

  campaign_branch-IsBranch :
      (version : ℕ) (value : Json F) (branch : TimingBranch F)
      → version < 4
      → campaign_branch value ≡ ok branch
      → IsBranch version branch
  unfolding campaign_branch
  campaign_branch-IsBranch version value branch old h =
      let (raw, _, h1) = >>=-eq-ok (mapping value campaign_timing_fields) _ h in
      let (events, e, h2) = >>=-eq-ok (integer_at 1 raw "clean_trials") _ h1 in
      let (flush, f, h3) = >>=-eq-ok (integer_at 0 raw "cache_scrub_bytes") _ h2 in
      let (repeats, r, h4) = >>=-eq-ok (integer_at 3 raw "campaign_repetitions") _ h3 in
      returned (λ b. IsBranch version b) h4
        (record {
          branch_trials = integer_at-le 1 raw "clean_trials" events e;
          branch_repeats = inr (integer_at-le 3 raw "campaign_repetitions" repeats r);
          branch_kineto = λ n. absurd (omega arith);
          branch_events = λ o. (refl, refl);
        })

  read_orders-each :
      (branch : TimingBranch F) (orders : List String)
      → read_orders branch ≡ ok orders
      → (length orders ≡ branch.branch_repetitions) × All (λ order. is_order order ≡ true) orders
  unfolding read_orders
  read_orders-each branch orders h =
      let (raw, _, h1) = >>=-eq-ok (at branch.timing_raw "campaign_orders") _ h in
      let (entries, _, h2) = >>=-eq-ok (nonempty_list raw no_orders) _ h1 in
      let (read, _, h3) = >>=-eq-ok (collect (read_string false) entries) _ h2 in
      let (count, h4) =
        >>-ok (raise_if (not (eqb (length read) branch.branch_repetitions)) wrong_order_count) _
          h3 in
      let test = anyb (λ order. not (is_order order)) read in
      let (each, is) = >>-ok (raise_if test bad_order) (ok read) h4 in
      let all = anyb-All is_order read (raise_if-eq-ok test bad_order each) in
      returned
        (λ xs. (length xs ≡ branch.branch_repetitions) × All (λ order. is_order order ≡ true) xs) is
        (ground arith, all)

  -- The branch and the orders go together.
  choose_branch-IsBranch :
      (version : ℕ) (value : Json F) (fields : List String) (branch : TimingBranch F)
      (orders : List String)
      → choose_branch version value fields ≡ ok branch
      → campaign_orders_of version fields branch ≡ ok orders
      → IsBranch version branch
        × (length orders ≡ branch.branch_repetitions)
        × All (λ order. is_order order ≡ true) orders
  unfolding choose_branch campaign_orders_of
  choose_branch-IsBranch version value fields branch orders h g =
      elim (Bool-cases (leb 4 version)) [
        | inl new ↦
            let (count, each) = read_orders-each branch orders (ground arith) in
            (kineto_branch-IsBranch version value branch (ground arith) (ground arith), count, each)
        | inr old ↦ elim (Bool-cases (same_set fields legacy_timing_fields)) [
          | inl legacy ↦
              let (is, one) =
                legacy_branch-IsBranch version value branch (ground arith) (ground arith) in
              (is, ground arith, ground arith)
          | inr campaign ↦
              let (count, each) = read_orders-each branch orders (ground arith) in
              (
                campaign_branch-IsBranch version value branch (ground arith) (ground arith),
                count,
                each,
              )
        ]
      ]

module _ {F : Type 0} (fl : Floats F) where
  read_number-finite :
      (v : Json F) (x : F)
      → read_number fl v ≡ ok x
      → (fl.is_finite x ≡ true) × (fl.is_negative x ≡ false)
  unfolding read_number
  read_number-finite (real y) x h = ground arith
  read_number-finite (integer n) x h = elim (Option-cases (fl.float_of n)) [
    | inl out ↦ ground arith
    | inr (y, is) ↦ ground arith
  ]
  read_number-finite null x h = ground arith
  read_number-finite (boolean b) x h = ground arith
  read_number-finite (text s) x h = ground arith
  read_number-finite (array xs) x h = ground arith
  read_number-finite (object fs) x h = ground arith

  pub parse_timing-IsTiming :
      (version : ℕ) (value : Json F) (t : TimingConfig F)
      → parse_timing fl version value ≡ ok t
      → IsTiming fl version t
  unfolding parse_timing
  parse_timing-IsTiming version (object fs) t h =
      let fields = keys (fields_of fs) in
      let (branch, chosen, h1) = >>=-eq-ok (choose_branch version (object fs) fields) _ h in
      let (orders, read, h2) = >>=-eq-ok (campaign_orders_of version fields branch) _ h1 in
      let (warmup, _, h3) = >>=-eq-ok (integer_at 0 branch.timing_raw "warmup_iterations") _ h2 in
      let (v, _, h4) = >>=-eq-ok (at branch.timing_raw "cooldown_seconds") _ h3 in
      let (x, finite, h5) = >>=-eq-ok (read_number fl v) _ h4 in
      let (is, count, each) =
        choose_branch-IsBranch version (object fs) fields branch orders chosen read in
      returned (λ t. IsTiming fl version t) h5
        (record {
          some_trials = is.branch_trials;
          repeats = is.branch_repeats;
          kineto = is.branch_kineto;
          events = is.branch_events;
          order_each = count;
          orders = each;
          cooldown = read_number-finite v x finite;
        })
  parse_timing-IsTiming version null t h = ground arith
  parse_timing-IsTiming version (boolean b) t h = ground arith
  parse_timing-IsTiming version (integer n) t h = ground arith
  parse_timing-IsTiming version (real x) t h = ground arith
  parse_timing-IsTiming version (text s) t h = ground arith
  parse_timing-IsTiming version (array xs) t h = ground arith
