-- ===== src/Kineto/Activities.antt =====
-- Which activities `extract_range_timing` attributes to a range.
use fused_index_top_k.Base.{
  ◌≡◌, map, refl, sym, ap, subst, ◌∙◌, ◌⊎◌, inl, inr, Bool, true, false, ◌||◌, some, List, [], ◌∷◌,
  if◌then◌else◌, Eq, string_eq, nat_eq, anyb, Member, ok, returned, ok_eq, some_eq, none_is_some,
  arith, eq_iff, Bool-cases,
}
use fused_index_top_k.Kineto.{Event, attributes, Clock}
use fused_index_top_k.Kineto.Timing.{
  ActivityRecord, Identity, identity_of, time_range_of, record_of, same_identity, selected_id,
  select_records,
}
use fused_index_top_k.Kineto.Steps.{again, unselected, repeated, added, select_records-Step}

old_in_seen : (zero_span seen : Bool) → zero_span ≡ false → (zero_span || seen) ≡ true → seen ≡ true
old_in_seen a b h k = ground arith

known_before :
    (first seen : Bool) → first ≡ false → (if first then true else seen) ≡ true → seen ≡ true
known_before a b h k = ground arith

abbrev pub span_of : {I T : Type 0} → Identity I T → T × T
span_of x = (x.identity_start, x.identity_end)

-- No two members are equal.
abbrev pub AreDistinct : {A : Type 0} → List A → Type 0
AreDistinct [] = Unit
AreDistinct (x ∷ xs) = (¬ Member x xs) × AreDistinct xs

unseen : (first seen : Bool) → (if first then true else seen) ≡ false → seen ≡ false
unseen a b h = ground arith

not_itself : (same seen : Bool) → same ≡ true → (if same then true else seen) ≡ false → ⊥
not_itself a b h k = ground arith

module _ {I T : Type 0} (clock : Clock T) where
  abbrev pub record_of_identity : Identity I T → ActivityRecord T
  record_of_identity x = record_of clock x.identity_name (span_of x)

module _ {I T : Type 0} ⦃i : Eq I⦄ (clock : Clock T) (correlated : List I) where
  -- The event passes the tests of the loop and has this identity.
  pub record Selects (e : Event I T) (x : Identity I T) : Type 0 where
    pub selected : selected_id clock correlated e ≡ some x.identity_id
    pub same_name : x.identity_name ≡ (attributes e).name
    pub timed : time_range_of clock (attributes e).time_range ≡ ok (span_of x)
    pub takes_time : clock.time_eq.beq x.identity_end x.identity_start ≡ false

  same_identity-eq : (x y : Identity I T) → same_identity clock x y ≡ true → x ≡ y
  same_identity-eq x y h =
      let a : x.identity_id ≡ y.identity_id =
        ground (arith, i.beq_iff x.identity_id y.identity_id) in
      let b : x.identity_name ≡ y.identity_name =
        ground (arith, eq_iff x.identity_name y.identity_name) in
      let c : x.identity_start ≡ y.identity_start =
        ground (arith, clock.time_eq.beq_iff x.identity_start y.identity_start) in
      let d : x.identity_end ≡ y.identity_end =
        ground (arith, clock.time_eq.beq_iff x.identity_end y.identity_end) in
      λ k. identity_of (a k) (b k) (c k, d k)

  same_self : (x : Identity I T) → same_identity clock x x ≡ true
  same_self x = ground (
    arith,
    i.beq_iff x.identity_id x.identity_id,
    eq_iff x.identity_name x.identity_name,
    clock.time_eq.beq_iff x.identity_start x.identity_start,
    clock.time_eq.beq_iff x.identity_end x.identity_end,
  )

  Selects-unique :
      (e : Event I T) (x : Identity I T) (id : I) (span : T × T)
      → Selects e x
      → selected_id clock correlated e ≡ some id
      → time_range_of clock (attributes e).time_range ≡ ok span
      → x ≡ identity_of id (attributes e).name span
  Selects-unique e x id span s is timed =
      let a = some_eq x.identity_id id (sym s.selected ∙ is) in
      let c = ok_eq (span_of x) span (sym s.timed ∙ timed) in
      λ k. identity_of (a k) (s.same_name k) (c k)

  -- What a run of the loop has chosen: the identities of its records.
  pub record IsChosen (events : List (Event I T)) (seen : List (Identity I T))
      (records : List (ActivityRecord T)) : Type 0 where
    pub chosen : List (Identity I T)
    pub made : records ≡ map (record_of_identity clock) chosen
    pub fresh : (x : Identity I T) → Member x chosen → anyb (same_identity clock x) seen ≡ false
    pub found :
        (x : Identity I T) → Member x chosen → (e : Event I T) × Member e events × Selects e x
    pub complete :
        (e : Event I T) (x : Identity I T)
        → Member e events
        → Selects e x
        → (anyb (same_identity clock x) seen ≡ true) ⊎ Member x chosen
    pub distinct : AreDistinct chosen

  -- An event without a record of its own leaves the choice of the others.
  IsChosen-skip :
      (f : Event I T) (events : List (Event I T)) (seen : List (Identity I T))
      (records : List (ActivityRecord T))
      → ((x : Identity I T) → Selects f x → anyb (same_identity clock x) seen ≡ true)
      → IsChosen events seen records
      → IsChosen (f ∷ events) seen records
  IsChosen-skip f events seen records known c = record {
    chosen = c.chosen;
    made = c.made;
    fresh = c.fresh;
    found = λ x m. let (e, n, s) = c.found x m in (e, inr n, s);
    complete = λ e x m s. elim m [
      | inl here ↦ inl (known x (subst (λ g. Selects g x) here s))
      | inr there ↦ c.complete e x there s
    ];
    distinct = c.distinct;
  }

  IsChosen-add :
      (f : Event I T) (events : List (Event I T)) (seen : List (Identity I T))
      (first : Identity I T) (records others : List (ActivityRecord T))
      → Selects f first
      → ((x : Identity I T) → Selects f x → x ≡ first)
      → anyb (same_identity clock first) seen ≡ false
      → records ≡ record_of_identity clock first ∷ others
      → IsChosen events (first ∷ seen) others
      → IsChosen (f ∷ events) seen records
  IsChosen-add f events seen first records others s unique new made c = record {
    chosen = first ∷ c.chosen;
    made = made ∙ ap (λ xs. record_of_identity clock first ∷ xs) c.made;
    fresh = λ x m. elim m [
      | inl here ↦ subst (λ y. anyb (same_identity clock y) seen ≡ false) (sym here) new
      | inr there ↦ unseen (same_identity clock x first) _ (c.fresh x there)
    ];
    found = λ x m. elim m [
      | inl here ↦ (f, inl refl, subst (Selects f) (sym here) s)
      | inr there ↦ let (e, n, t) = c.found x there in (e, inr n, t)
    ];
    complete = λ e x m t. elim m [
      | inl here ↦ inr (inl (unique x (subst (λ g. Selects g x) here t)))
      | inr there ↦ elim (c.complete e x there t) [
        | inr later ↦ inr (inr later)
        | inl known ↦ elim (Bool-cases (same_identity clock x first)) [
          | inl same ↦ inr (inl (same_identity-eq x first same))
          | inr other ↦ inl (known_before (same_identity clock x first) _ other known)
        ]
      ]
    ];
    distinct = (
      λ m. not_itself (same_identity clock first first) _ (same_self first) (c.fresh first m),
      c.distinct,
    );
  }

  pub select_records-IsChosen :
      (events : List (Event I T)) (seen : List (Identity I T)) (records : List (ActivityRecord T))
      → select_records clock correlated events seen ≡ ok records
      → IsChosen events seen records
  unfolding select_records
  select_records-IsChosen [] seen records h = record {
    chosen = [];
    made = returned (λ xs. xs ≡ []) h refl;
    fresh = λ x m. absurd m;
    found = λ x m. absurd m;
    complete = λ e x m s. absurd m;
    distinct = tt;
  }
  select_records-IsChosen (e ∷ events) seen records h =
      elim (select_records-Step clock correlated e events seen records h) [
        | unselected out rest ↦
            IsChosen-skip e events seen records
              (λ x s. absurd (none_is_some x.identity_id (sym out ∙ s.selected)))
              (select_records-IsChosen events seen records rest)
        | repeated id span is timed old rest ↦
            IsChosen-skip e events seen records
              (λ x s.
                let same = Selects-unique e x id span s is timed in
                old_in_seen (clock.time_eq.beq x.identity_end x.identity_start) _ s.takes_time (
                  subst
                    (λ y.
                      again clock correlated seen y.identity_id y.identity_name (span_of y) ≡ true)
                    (sym same) old))
              (select_records-IsChosen events seen records rest)
        | added id span others is timed new rest made ↦
            let first = identity_of id (attributes e).name span in
            IsChosen-add e events seen first records others
              (record { selected = is; same_name = refl; timed = timed; takes_time = ground arith })
              (λ x s. Selects-unique e x id span s is timed) (ground arith) made
              (select_records-IsChosen events (first ∷ seen) others rest)
      ]
