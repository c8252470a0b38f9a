-- ===== src/Kineto/Attributed.antt =====
-- The CUDA activities below a range, by the attributes of their events, and the tests that
-- `extract_range_timing` makes for them.
use fused_index_top_k.Base.{
  if◌then◌else◌, not, ◌&&◌, none_is_some, some_eq, ◌≡◌, true, false, Option, none, some, ◌∙◌, ◌==◌,
  ok_eq, eq_iff, refl, sym, ap, subst, ◌↔◌, inl, inr, Bool, List, Eq, string_eq, nat_eq, contains,
  ok, arith, Bool-cases,
}
use fused_index_top_k.Kineto.{
  Event, attributes, kineto_range_prefix, cpu_children, Clock, KinetoError, correlated_cuda_ids,
}
use fused_index_top_k.Kineto.Timing.{Identity, time_range_of, selected_id, correlated_id}
use fused_index_top_k.Graph.Validate.{codes}
use fused_index_top_k.Nvtx.{starts_with}
use fused_index_top_k.Kineto.Ids.{launches_below, contains-correlated_cuda_ids}
use fused_index_top_k.Kineto.Activities.{span_of, Selects}

pub true_and_false : (b : Bool) → b ≡ true → b ≡ false → ⊥
true_and_false b h k = ground arith

tests_of_some :
    {I : Type 0} (device nameless ours : Bool) (o : Option I) (x : I)
    → (if device && not nameless && not ours then o else none) ≡ some x
    → (device ≡ true) × (nameless ≡ false) × (ours ≡ false) × (o ≡ some x)
tests_of_some true false false o x h = (refl, refl, refl, h)
tests_of_some true false true o x h = absurd (none_is_some x h)
tests_of_some true true ours o x h = absurd (none_is_some x h)
tests_of_some false nameless ours o x h = absurd (none_is_some x h)

some_of_tests :
    {I : Type 0} (device nameless ours : Bool) (o : Option I) (x : I)
    → device ≡ true
    → nameless ≡ false
    → ours ≡ false
    → o ≡ some x
    → (if device && not nameless && not ours then o else none) ≡ some x
some_of_tests device nameless ours o x p q r e = rw (p, q, r) e

is_false : (b : Bool) → ¬ (b ≡ true) → b ≡ false
is_false true h = absurd (h refl)
is_false false h = refl

module _ {T : Type 0} (clock : Clock T) where
  time_range_of-tests :
      (range : Option (T × T)) (start stop : T)
      → time_range_of clock range ≡ ok (start, stop)
      → (range ≡ some (start, stop)) × (clock.before stop start ≡ false)
  unfolding time_range_of
  time_range_of-tests none start stop h = ground arith
  time_range_of-tests (some range) start stop h = elim (Bool-cases (clock.before range.1 range.0)) [
    | inl negative ↦ ground (arith, negative)
    | inr forward ↦
        let same : range ≡ (start, stop) =
          ok_eq {E = KinetoError} range (start, stop) (ground (arith, forward)) in
        (
          ap (λ (r : T × T). some r) same,
          subst (λ (r : T × T). clock.before r.1 r.0 ≡ false) same forward,
        )
  ]

  time_range_of-of_tests :
      (range : Option (T × T)) (start stop : T)
      → range ≡ some (start, stop)
      → clock.before stop start ≡ false
      → time_range_of clock range ≡ ok (start, stop)
  unfolding time_range_of
  time_range_of-of_tests range start stop is forward = rw (is, forward)

module _ {I T : Type 0} ⦃i : Eq I⦄ (clock : Clock T) where
  correlated_id-some :
      (correlated : List I) (o : Option I) (x : I)
      → correlated_id clock correlated o ≡ some x
      → (o ≡ some x) × (contains correlated x ≡ true)
  correlated_id-some correlated none x h = absurd (none_is_some x h)
  correlated_id-some correlated (some id) x h = elim (Bool-cases (contains correlated id)) [
    | inl m ↦
        let same = some_eq id x (rw m at h) in
        (ap (λ (y : I). some y) same, subst (λ y. contains correlated y ≡ true) same m)
    | inr out ↦ absurd (none_is_some x (rw out at h))
  ]

  selected_id-tests :
      (correlated : List I) (e : Event I T) (x : I)
      → selected_id clock correlated e ≡ some x
      → (((attributes e).device == "CUDA") ≡ true)
        × (((attributes e).name == "") ≡ false)
        × (starts_with (codes (attributes e).name) (codes kineto_range_prefix) ≡ false)
        × ((attributes e).id ≡ some x)
        × (contains correlated x ≡ true)
  unfolding selected_id
  selected_id-tests correlated e x h =
      let (device, named, ours, picked) =
        tests_of_some ((attributes e).device == "CUDA") ((attributes e).name == "") _
          (correlated_id clock correlated (attributes e).id) x h in
      let (is, m) = correlated_id-some correlated (attributes e).id x picked in
      (device, named, ours, is, m)

  selected_id-of_tests :
      (correlated : List I) (e : Event I T) (x : I)
      → ((attributes e).device == "CUDA") ≡ true
      → ((attributes e).name == "") ≡ false
      → starts_with (codes (attributes e).name) (codes kineto_range_prefix) ≡ false
      → (attributes e).id ≡ some x
      → contains correlated x ≡ true
      → selected_id clock correlated e ≡ some x
  unfolding selected_id
  selected_id-of_tests correlated e x device named ours is m =
      some_of_tests ((attributes e).device == "CUDA") ((attributes e).name == "") _
        (correlated_id clock correlated (attributes e).id) x device named ours
        (rw (is, correlated_id) (rw m))

  -- A CUDA activity below a range: an event on a CUDA device, with the ID of a CUDA call in the tree
  -- below the range, whose name is neither empty nor that of a range of ours, that does not end
  -- before it starts and takes some time.
  pub record Attributed (root : Event I T) (e : Event I T) (x : Identity I T) : Type 0 where
    pub on_device : (attributes e).device ≡ "CUDA"
    pub same_id : (attributes e).id ≡ some x.identity_id
    pub launched : launches_below (cpu_children root) x.identity_id ≡ true
    pub same_name : x.identity_name ≡ (attributes e).name
    pub named : ((attributes e).name == "") ≡ false
    pub not_a_range : starts_with (codes (attributes e).name) (codes "ITK::KINETO::") ≡ false
    pub timed : (attributes e).time_range ≡ some (span_of x)
    pub forward : clock.before x.identity_end x.identity_start ≡ false
    pub takes_time : ¬ (x.identity_end ≡ x.identity_start)

  pub Selects-Attributed :
      (root e : Event I T) (x : Identity I T)
      → (Selects clock (correlated_cuda_ids root) e x) ↔ (Attributed root e x)
  Selects-Attributed root e x = (
    λ s.
        let (device, named, ours, is, m) =
          selected_id-tests (correlated_cuda_ids root) e x.identity_id s.selected in
        let (timed, forward) =
          time_range_of-tests clock (attributes e).time_range x.identity_start x.identity_end
            s.timed in
        record {
          on_device = (eq_iff (attributes e).device "CUDA").0 device;
          same_id = is;
          launched = sym (contains-correlated_cuda_ids root x.identity_id) ∙ m;
          same_name = s.same_name;
          named = named;
          not_a_range = ours;
          timed = timed;
          forward = forward;
          takes_time = λ same.
              true_and_false _ ((clock.time_eq.beq_iff x.identity_end x.identity_start).1 same)
                s.takes_time;
        },
    λ a. record {
      selected =
          selected_id-of_tests (correlated_cuda_ids root) e x.identity_id
            ((eq_iff (attributes e).device "CUDA").1 a.on_device) a.named a.not_a_range a.same_id
            (contains-correlated_cuda_ids root x.identity_id ∙ a.launched);
      same_name = a.same_name;
      timed =
          time_range_of-of_tests clock (attributes e).time_range x.identity_start x.identity_end
            a.timed a.forward;
      takes_time =
          is_false _
            (λ same. a.takes_time ((clock.time_eq.beq_iff x.identity_end x.identity_start).0 same));
    },
  )
