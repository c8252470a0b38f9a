-- ===== src/Comparison/Evidence.antt =====
-- Evidence without errors is complete.
use fused_index_top_k.Base.{
  ℕ, suc, ◌≡◌, refl, inl, inr, String, Bool, true, false, not, Option, some, List, [], ◌∷◌, ◌++◌,
  eqb, string_eq, nat_eq, length, Dict, get, arith, Bool-cases, Option-cases,
}
use fused_index_top_k.Config.{Json, shape_eq}
use fused_index_top_k.Comparison.{
  EvidenceError, gate_not_passed, fixture_order_invalid, checks_incomplete, realized_order_invalid,
  record_not_passed, error_if, as_object, is_text, is_text_list, is_passed, check_key,
  check_records, check_positions, gate_errors, fixture_gate_errors,
}
use fused_index_top_k.Config.Read.{list_eqb}
use fused_index_top_k.Config.Ordered.{list_eqb-eq}

pub append_empty : {A : Type 0} (xs ys : List A) → xs ++ ys ≡ [] → (xs ≡ []) × (ys ≡ [])
append_empty [] ys h = (refl, h)
append_empty (x ∷ xs) ys h = ground arith

pub error_if-none : (b : Bool) (e : EvidenceError) → error_if (not b) e ≡ [] → b ≡ true
error_if-none true e h = refl
error_if-none false e h = ground arith

pub not_empty : {A : Type 0} (x : A) (xs : List A) → x ∷ xs ≡ [] → ⊥
not_empty x xs h = ground arith

not_appended : {A : Type 0} (xs : List A) (x : A) → xs ++ x ∷ [] ≡ [] → ⊥
not_appended xs x h = not_empty x [] (append_empty xs (x ∷ []) h).1

module _ {F : Type 0} (str_of : Option (Json F) → String) where
  -- Each position has its check, which names the fixture and passed both comparisons.
  abbrev pub AllChecked : Dict (Json F) → ℕ → List String → Type 0
  AllChecked checks position [] = Unit
  AllChecked checks position (fixture_id ∷ rest) =
      ((check : Dict (Json F)) × (as_object (get checks (check_key position fixture_id))
          ≡ some check)
        × (is_passed (get check "contract_check") ≡ true)
        × (is_passed (get check "exact_reference_check") ≡ true)
        × (str_of (get check "fixture_id") ≡ fixture_id))
      × AllChecked checks (suc position) rest

  check_records-passed :
      (position : ℕ) (check : Dict (Json F))
      → check_records position check ≡ []
      → (is_passed (get check "contract_check") ≡ true)
        × (is_passed (get check "exact_reference_check") ≡ true)
  unfolding check_records
  check_records-passed position check h =
      let (first, second) =
        append_empty
          (error_if (not (is_passed (get check "contract_check")))
            (record_not_passed position "contract_check"))
          _ h in
      (
        error_if-none _ (record_not_passed position "contract_check") first,
        error_if-none _ (record_not_passed position "exact_reference_check") second,
      )

  check_positions-AllChecked :
      (checks : Dict (Json F)) (position : ℕ) (order : List String)
      → (check_positions str_of checks position order).0 ≡ []
      → (check_positions str_of checks position order).1 ≡ order
      → AllChecked checks position order
  unfolding check_positions
  check_positions-AllChecked checks position [] h same = tt
  check_positions-AllChecked checks position (id ∷ rest) h same =
      elim (Option-cases (as_object (get checks (check_key position id)))) [
        | inl out ↦ absurd (not_empty _ _ (rw (out, check_positions) at h))
        | inr (check, is) ↦
            let later = check_positions str_of checks (suc position) rest in
            let (records, others) =
              append_empty (check_records position check) later.0 (rw (is, check_positions) at h) in
            let realized : str_of (get check "fixture_id") ∷ later.1 ≡ id ∷ rest =
              rw (is, check_positions) at same in
            let (contract, exact) = check_records-passed position check records in
            (
              (check, is, contract, exact, ground (arith, realized)),
              check_positions-AllChecked checks (suc position) rest others
                  (ground (arith, realized)),
            )
      ]

  -- What a gate without errors holds.
  pub record IsPassedGate (gate : Option (Json F)) (order : List String) : Type 0 where
    pub fields : Dict (Json F)
    pub is_gate : as_object gate ≡ some fields
    pub status_passed : is_text (get fields "status") "passed" ≡ true
    pub order_kept : is_text_list (get fields "order") order ≡ true
    pub checks : Dict (Json F)
    pub has_checks : as_object (get fields "checks") ≡ some checks
    pub check_count : length checks ≡ length order
    pub all_checked : AllChecked checks 0 order

  gate_errors-none :
      (gate : Option (Json F)) (fields : Dict (Json F)) (order : List String)
      → as_object gate ≡ some fields
      → is_text (get fields "status") "passed" ≡ true
      → gate_errors str_of fields order ≡ []
      → IsPassedGate gate order
  unfolding gate_errors
  gate_errors-none gate fields order is passed h =
      let order_errors =
        error_if (not (is_text_list (get fields "order") order)) fixture_order_invalid in
      elim (Option-cases (as_object (get fields "checks"))) [
        | inl out ↦
            absurd (not_appended order_errors checks_incomplete (rw (out, gate_errors) at h))
        | inr (checks, has) ↦ elim (Bool-cases (eqb (length checks) (length order))) [
          | inr wrong ↦
              absurd
                (not_appended order_errors checks_incomplete (rw (has, wrong, gate_errors) at h))
          | inl count ↦
              let checked = check_positions str_of checks 0 order in
              let (o, rest) =
                append_empty order_errors
                  (checked.0 ++ error_if (not (list_eqb checked.1 order)) realized_order_invalid)
                  (rw (has, count, gate_errors) at h) in
              let (none_missing, realized) =
                append_empty checked.0
                  (error_if (not (list_eqb checked.1 order)) realized_order_invalid) rest in
              record {
                fields = fields;
                is_gate = is;
                status_passed = passed;
                order_kept = error_if-none _ fixture_order_invalid o;
                checks = checks;
                has_checks = has;
                check_count = ground (arith, count);
                all_checked =
                    check_positions-AllChecked checks 0 order none_missing (
                      list_eqb-eq checked.1 order
                        (error_if-none _ realized_order_invalid realized));
              }
        ]
      ]

  -- A fixture gate without errors is passed, kept the expected order of the fixtures, and has exactly
  -- one check for each position, which names the fixture of that position and passed both the contract
  -- check and the comparison with the exact reference.
  pub fixture_gate_errors-IsPassedGate :
      (gate : Option (Json F)) (order : List String)
      → fixture_gate_errors str_of gate order ≡ []
      → IsPassedGate gate order
  unfolding fixture_gate_errors
  fixture_gate_errors-IsPassedGate gate order h = elim (Option-cases (as_object gate)) [
    | inl out ↦ absurd (not_empty gate_not_passed [] (rw (out, fixture_gate_errors) at h))
    | inr (fields, is) ↦ elim (Bool-cases (is_text (get fields "status") "passed")) [
      | inl passed ↦
          gate_errors-none gate fields order is passed (rw (is, passed, fixture_gate_errors) at h)
      | inr failed ↦
          absurd (not_empty gate_not_passed [] (rw (is, failed, fixture_gate_errors) at h))
    ]
  ]
