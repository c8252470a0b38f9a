-- ===== src/Kineto/Steps.antt =====
-- What the loop of `extract_range_timing` over the events does with its first event.
use fused_index_top_k.Base.{
  ◌≡◌, refl, inl, inr, String, Bool, true, false, ◌||◌, none, some, List, ◌∷◌, Eq, string_eq,
  nat_eq, anyb, ok, >>=-eq-ok, returned, Bool-cases, Option-cases,
}
use fused_index_top_k.Kineto.{Event, attributes, Clock}
use fused_index_top_k.Kineto.Timing.{
  ActivityRecord, Identity, identity_of, time_range_of, record_of, same_identity, selected_id,
  select_records,
}

module _ {I T : Type 0} ⦃i : Eq I⦄ (clock : Clock T) (correlated : List I) where
  abbrev pub again : List (Identity I T) → I → String → T × T → Bool
  again seen id name range =
      clock.time_eq.beq range.1 range.0
      || anyb (same_identity clock (identity_of id name range)) seen

  -- What the loop does with its first event.
  pub data Step (e : Event I T) (events : List (Event I T)) (seen : List (Identity I T))
      (records : List (ActivityRecord T)) : Type 0 where
    unselected :
        selected_id clock correlated e ≡ none
        → select_records clock correlated events seen ≡ ok records
        → Step e events seen records
    repeated :
        (id : I) (span : T × T)
        → selected_id clock correlated e ≡ some id
        → time_range_of clock (attributes e).time_range ≡ ok span
        → again seen id (attributes e).name span ≡ true
        → select_records clock correlated events seen ≡ ok records
        → Step e events seen records
    added :
        (id : I) (span : T × T) (rest : List (ActivityRecord T))
        → selected_id clock correlated e ≡ some id
        → time_range_of clock (attributes e).time_range ≡ ok span
        → again seen id (attributes e).name span ≡ false
        → select_records clock correlated events (identity_of id (attributes e).name span ∷ seen)
          ≡ ok rest
        → records ≡ record_of clock (attributes e).name span ∷ rest
        → Step e events seen records

  pub select_records-Step :
      (e : Event I T) (events : List (Event I T)) (seen : List (Identity I T))
      (records : List (ActivityRecord T))
      → select_records clock correlated (e ∷ events) seen ≡ ok records
      → Step e events seen records
  unfolding select_records
  select_records-Step e events seen records h =
      elim (Option-cases (selected_id clock correlated e)) [
        | inl out ↦ unselected out (rw (out, select_records) at h)
        | inr (id, is) ↦
            let (span, timed, next) =
              >>=-eq-ok (time_range_of clock (attributes e).time_range) _
                (rw (is, select_records) at h) in
            elim (Bool-cases (again seen id (attributes e).name span)) [
              | inl old ↦ repeated id span is timed old (rw old at next)
              | inr new ↦
                  let taken =
                    select_records clock correlated events
                      (identity_of id (attributes e).name span ∷ seen) in
                  let (rest, is_rest, done) = >>=-eq-ok taken _ (rw new at next) in
                  added id span rest is timed new is_rest (
                    returned (λ xs. xs ≡ record_of clock (attributes e).name span ∷ rest) done refl)
            ]
      ]
