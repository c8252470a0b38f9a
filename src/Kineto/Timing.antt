-- ===== src/Kineto/Timing.antt =====
-- kineto.py: the CUDA activities of one range, `extract_range_timing`.
use Prim.Native.String.{compare}
use Prim.Native.Nat.{Ordering}
use fused_index_top_k.Base.{
  ℕ, ◌+◌, String, Bool, true, false, not, ◌&&◌, ◌||◌, Option, none, some, List, [], ◌∷◌, map, leb,
  eqb, if◌then◌else◌, Eq, ◌==◌, string_eq, length, filterb, anyb, contains, sorted, range, Result,
  ok, err, ◌>>=◌, ◌>>◌, raise_if,
}
use fused_index_top_k.Graph.Validate.{codes}
use fused_index_top_k.Nvtx.{starts_with}
use fused_index_top_k.Kineto.{
  Event, attributes, Clock, KinetoError, no_time_range, negative_duration, wrong_range_count,
  no_launches, no_activities, kineto_range_prefix, correlated_cuda_ids,
}

-- `name.lower()`, as far as an ASCII prefix of it goes
abbrev pub lower : ℕ → ℕ
lower c = if leb b'A' c && leb c b'Z' then c + 32 else c

unfoldable pub is_memory_activity : String → Bool
is_memory_activity name =
    starts_with (map lower (codes name)) (codes "[cuda memcpy")
    || starts_with (map lower (codes name)) (codes "[cuda memset")

-- `a < b` on texts
abbrev pub text_before : String → String → Bool
text_before a b = elim (compare a b) [ Ordering.lt ↦ true | _ ↦ false ]

pub data ActivityKind : Type 0 where
  memory kernel : ActivityKind

pub record ActivityRecord (T : Type 0) : Type 0 where
  pub activity_name : String
  pub start_us : T
  pub end_us : T
  pub duration_us : T
  pub kind : ActivityKind

pub record RangeTiming (T : Type 0) : Type 0 where
  pub timed_range : String
  pub kernel_sum_us : T
  pub activity_sum_us : T
  pub device_span_us : T
  pub gap_us : T
  pub kernel_count : ℕ
  pub activity_count : ℕ
  pub activities : List (ActivityRecord T)

abbrev pub is_kernel_kind : ActivityKind → Bool
is_kernel_kind memory = false
is_kernel_kind kernel = true

-- `(_event_id(event), name, start, end)`; its ID is one of the correlated ones.
pub record Identity (I T : Type 0) : Type 0 where
  pub identity_id : I
  pub identity_name : String
  pub identity_start : T
  pub identity_end : T

module _ {I T : Type 0} where
  abbrev pub identity_of : I → String → T × T → Identity I T
  identity_of id name range = record {
    identity_id = id;
    identity_name = name;
    identity_start = range.0;
    identity_end = range.1;
  }

module _ {T : Type 0} (clock : Clock T) where
  -- `_time_range`
  unfoldable pub time_range_of : Option (T × T) → Result KinetoError (T × T)
  time_range_of none = err no_time_range
  time_range_of (some range) =
      if clock.before range.1 range.0 then err negative_duration else ok range

  abbrev pub record_of : String → T × T → ActivityRecord T
  record_of name range = record {
    activity_name = name;
    start_us = range.0;
    end_us = range.1;
    duration_us = clock.minus range.1 range.0;
    kind = if is_memory_activity name then memory else kernel;
  }

  -- `records.append(...)`, before the records of the later events
  abbrev pub append_record :
      String → T × T → List (ActivityRecord T) → Result KinetoError (List (ActivityRecord T))
  append_record name range records = ok (record_of name range ∷ records)

  -- The order of `(start_us, end_us, name)`
  abbrev pub record_leb : ActivityRecord T → ActivityRecord T → Bool
  record_leb a b =
      clock.before a.start_us b.start_us
      || (clock.time_eq.beq a.start_us b.start_us
          && (clock.before a.end_us b.end_us
              || (clock.time_eq.beq a.end_us b.end_us
                  && not (text_before b.activity_name a.activity_name))))

  -- `sum(...)`, `max(...)` and `min(...)`, from the left
  abbrev pub sum_from : T → List T → T
  sum_from total [] = total
  sum_from total (t ∷ ts) = sum_from (clock.plus total t) ts

  abbrev pub latest : T → List T → T
  latest t [] = t
  latest t (u ∷ us) = latest (if clock.before t u then u else t) us

  abbrev pub earliest : T → List T → T
  earliest t [] = t
  earliest t (u ∷ us) = earliest (if clock.before u t then u else t) us

  abbrev pub durations : List (ActivityRecord T) → List T
  durations records = map (λ (r : ActivityRecord T). r.duration_us) records

  -- `RangeTiming(...)` from the sorted records, the first of which is given
  unfoldable pub timing_of : String → ActivityRecord T → List (ActivityRecord T) → RangeTiming T
  timing_of name first rest =
      let records = first ∷ rest in
      let kernels = filterb (λ (r : ActivityRecord T). is_kernel_kind r.kind) records in
      let activity_sum = sum_from clock.zero_time (durations records) in
      let last = latest first.end_us (map (λ (r : ActivityRecord T). r.end_us) rest) in
      let start = earliest first.start_us (map (λ (r : ActivityRecord T). r.start_us) rest) in
      let span = clock.minus last start in
      let gap = clock.minus span activity_sum in
      record {
        timed_range = name;
        kernel_sum_us = sum_from clock.zero_time (durations kernels);
        activity_sum_us = activity_sum;
        device_span_us = span;
        gap_us = if clock.before clock.zero_time gap then gap else clock.zero_time;
        kernel_count = length kernels;
        activity_count = length records;
        activities = records;
      }

  unfoldable pub finish_timing :
      String → List (ActivityRecord T) → Result KinetoError (RangeTiming T)
  finish_timing name [] = err no_activities
  finish_timing name (first ∷ rest) = ok (timing_of name first rest)

module _ {I T : Type 0} ⦃i : Eq I⦄ (clock : Clock T) where
  abbrev pub same_identity : Identity I T → Identity I T → Bool
  same_identity a b =
      i.beq a.identity_id b.identity_id
      && a.identity_name == b.identity_name
      && clock.time_eq.beq a.identity_start b.identity_start
      && clock.time_eq.beq a.identity_end b.identity_end

  -- The tests of the loop before `_time_range`, with the ID of the event if they pass.
  abbrev pub correlated_id : List I → Option I → Option I
  correlated_id correlated none = none
  correlated_id correlated (some id) = if contains correlated id then some id else none

  unfoldable pub selected_id : List I → Event I T → Option I
  selected_id correlated e =
      let name = (attributes e).name in
      if (attributes e).device == "CUDA"
        && not (name == "")
        && not (starts_with (codes name) (codes kineto_range_prefix))
      then correlated_id correlated (attributes e).id
      else none

  -- The loop over the events, with `seen`; the records stand in the order of appending.
  unfoldable pub select_records :
      List I → List (Event I T) → List (Identity I T) → Result KinetoError (List (ActivityRecord T))
  select_records correlated [] seen = ok []
  select_records correlated (e ∷ events) seen = elim (selected_id correlated e) [
    | none ↦ select_records correlated events seen
    | some id ↦ do
      range ← time_range_of clock (attributes e).time_range
      let identity = identity_of id (attributes e).name range
      let skipped = select_records correlated events seen
      let taken = select_records correlated events (identity ∷ seen)
      let again = clock.time_eq.beq range.1 range.0 || anyb (same_identity identity) seen
      (if again then skipped else (taken >>= append_record clock (attributes e).name range))
  ]

  abbrev pub is_range : String → Event I T → Bool
  is_range name e = (attributes e).name == name && (attributes e).device == "CPU"

  unfoldable pub only_range : List (Event I T) → Result KinetoError (Event I T)
  only_range [] = err wrong_range_count
  only_range (e ∷ []) = ok e
  only_range (e ∷ f ∷ rest) = err wrong_range_count

  unfoldable pub extract_range_timing :
      List (Event I T) → String → Result KinetoError (RangeTiming T)
  extract_range_timing events name = do
    root ← only_range (filterb (is_range name) events)
    let correlated = correlated_cuda_ids root
    raise_if (eqb (length correlated) 0) no_launches
    records ← select_records correlated events []
    finish_timing clock name (sorted (record_leb clock) records)
