-- ===== src/Comparison.antt =====
-- src/fused_index_topk/comparison.py: the checks on the evidence that a benchmark artifact carries
-- for each case. The list of errors holds what has failed; the label of the case is left out.
pub mod Evidence
pub mod Inputs
pub mod Declared
pub mod Binding
use fused_index_top_k.Config.Read.{list_eqb}
use Prim.Native.String
use fused_index_top_k.Base.{
  ℕ, zero, suc, ◌+◌, ◌-◌, ◌*◌, ◌%◌, ◌≤◌, ◌<◌, min, max, ◌≡◌, refl, sym, ap, ap₂, subst, ◌∙◌, ◌≢◌,
  ◌↔◌, ◌⊎◌, inl, inr, String, Bool, true, false, not, ◌&&◌, ◌||◌, Option, none, some, List, [], ◌∷◌,
  ◌++◌, map, ℤ, ltb, leb, eqb, if◌then◌else◌, Eq, ◌==◌, string_eq, nat_eq, length, filterb, anyb,
  Member, contains, subset, diff, frozenset, IsUnique, Dict, keys, get, put, Result, ok, err, ◌>>=◌,
  ◌>>◌, raise_if, map_err, >>=-eq-ok, raise_if-eq-ok, returned, countb, sorted, insert_sorted,
  arith, eq_iff, Bool-cases, Option-cases, eq_self, contains-sorted, contains-frozenset,
  frozenset-IsUnique, sorted-IsUnique, frozenset_of_unique, is_minus_one, get_of_key, key_of_get,
  get-put, contains-put, subset-contains, contains-append, contains-filterb, length-append,
  length-frozenset-IsUnique,
}
use fused_index_top_k.Config.{
  Json, null, boolean, integer, real, text, array, object, Items, no_items, item, Fields, no_fields,
  field, items_of, fields_of, to_items, to_fields, Floats, ConfigError, not_an_object,
  unknown_fields, missing_fields, not_an_integer, not_a_number, not_a_boolean, empty_text,
  unsafe_text, not_a_list, not_increasing, context_below_query, not_ordered, repeated_text,
  no_variants, bad_factory, options_not_an_object, bad_schema_version, bad_capability, bad_commit,
  lengths_below_query, bad_batch_size, not_causal, broken_contract, bad_score_dtype,
  bad_output_dtype, top_k_too_large, bad_method, bad_flush_bytes, no_orders, wrong_order_count,
  bad_order, not_benchmarked, unknown_reference, unknown_baseline, bad_purpose, not_configured,
  ambiguous, unknown_variant, bad_mode, key_error, overflow_error, TargetConfig, SourceConfig,
  CaseShapeConfig, WorkloadConfig, TimingConfig, ProfilingConfig, VariantConfig, LabConfig,
  shape_eqb, shape_eq, shape_leb, shape_eqb_iff,
}
use fused_index_top_k.Config.Cases.{decimal}

pub data EvidenceError : Type 0 where
  gate_not_passed fixture_order_invalid checks_incomplete realized_order_invalid : EvidenceError
  missing_fixture_check : ℕ → EvidenceError
  record_not_passed : ℕ → String → EvidenceError
  no_input_evidence : EvidenceError
  content_hash_invalid : String → EvidenceError
  identical_contents combined_hash_invalid fixtures_differ input_hash_differs : EvidenceError
  anti_precompute_invalid : EvidenceError

-- `[message] if test else []`
abbrev pub error_if : Bool → EvidenceError → List EvidenceError
error_if true e = e ∷ []
error_if false e = []

-- `f"{position}:{expected_order[position]}"`
abbrev pub check_key : ℕ → String → String
check_key position fixture_id = String.◌++◌ (decimal position) (String.◌++◌ ":" fixture_id)

module _ {F : Type 0} where
  -- `value if isinstance(value, Mapping) else None`
  abbrev pub as_object : Option (Json F) → Option (Dict (Json F))
  as_object (some (object fs)) = some (fields_of fs)
  as_object other = none

  -- `value == text`
  abbrev pub is_text : Option (Json F) → String → Bool
  is_text (some (text s)) t = s == t
  is_text other t = false

  -- `value == [text, ...]`
  abbrev pub are_texts : List (Json F) → List String → Bool
  are_texts [] [] = true
  are_texts [] (t ∷ ts) = false
  are_texts (x ∷ xs) [] = false
  are_texts (x ∷ xs) (t ∷ ts) = is_text (some x) t && are_texts xs ts

  abbrev pub is_text_list : Option (Json F) → List String → Bool
  is_text_list (some (array xs)) ts = are_texts (items_of xs) ts
  is_text_list other ts = false

  -- `isinstance(record, Mapping) and record.get("status") == "passed"`
  abbrev pub is_passed : Option (Json F) → Bool
  is_passed value = elim (as_object value) [
    | none ↦ false
    | some fields_found ↦ is_text (get fields_found "status") "passed"
  ]

  unfoldable pub check_records : ℕ → Dict (Json F) → List EvidenceError
  check_records position check =
      error_if (not (is_passed (get check "contract_check")))
        (record_not_passed position "contract_check")
      ++ error_if (not (is_passed (get check "exact_reference_check")))
          (record_not_passed position "exact_reference_check")

module _ {F : Type 0} (str_of : Option (Json F) → String) where
  -- The loop over the positions: its errors, and the realized order.
  unfoldable pub check_positions :
      Dict (Json F) → ℕ → List String → List EvidenceError × List String
  check_positions checks position [] = ([], [])
  check_positions checks position (fixture_id ∷ rest) =
      let later = check_positions checks (suc position) rest in
      elim (as_object (get checks (check_key position fixture_id))) [
        | none ↦ (missing_fixture_check position ∷ later.0, later.1)
        | some check ↦
            (check_records position check ++ later.0, str_of (get check "fixture_id") ∷ later.1)
      ]

  unfoldable pub gate_errors : Dict (Json F) → List String → List EvidenceError
  gate_errors gate expected_order =
      let order_errors =
        error_if (not (is_text_list (get gate "order") expected_order)) fixture_order_invalid in
      elim (as_object (get gate "checks")) [
        | none ↦ order_errors ++ checks_incomplete ∷ []
        | some checks ↦
            let checked = check_positions checks 0 expected_order in
            if not (eqb (length checks) (length expected_order))
            then order_errors ++ checks_incomplete ∷ []
            else order_errors
              ++ (checked.0
                  ++ error_if (not (list_eqb checked.1 expected_order)) realized_order_invalid)
      ]

  unfoldable pub fixture_gate_errors : Option (Json F) → List String → List EvidenceError
  fixture_gate_errors gate expected_order = elim (as_object gate) [
    | none ↦ gate_not_passed ∷ []
    | some fields ↦
        let errors = gate_errors fields expected_order in
        if not (is_text (get fields "status") "passed") then gate_not_passed ∷ [] else errors
  ]

-- `canonical_json`, the SHA-256 digest of a text in hexadecimal, and `==` on decoded values.
pub record Hashing (F : Type 0) : Type 0 where
  pub canonical_json : Json F → String
  pub sha256 : String → String
  pub same_value : Option (Json F) → Option (Json F) → Bool

module _ {F : Type 0} (h : Hashing F) where
  -- `canonical_hash`
  abbrev pub canonical_hash : Json F → String
  canonical_hash value = h.sha256 (h.canonical_json value)

  -- `fixture_hashes[fixture_id]`, if the recorded hash is that of the manifest
  unfoldable pub fixture_hash : Dict (Json F) → String → Option String
  fixture_hash fixtures fixture_id = elim (as_object (get fixtures fixture_id)) [
    | none ↦ none
    | some fixture ↦ elim (as_object (get fixture "content")) [
      | none ↦ none
      | some content ↦ elim (as_object (get content "manifest")) [
        | none ↦ none
        | some manifest ↦
            let digest = canonical_hash (object (to_fields manifest)) in
            if is_text (get content "sha256") digest then some digest else none
      ]
    ]
  ]

  abbrev pub hash_errors : Option String → String → List EvidenceError
  hash_errors none fixture_id = content_hash_invalid fixture_id ∷ []
  hash_errors (some digest) fixture_id = []

  abbrev pub combined : String → String → Json F
  combined a b = object (to_fields (("A", text a) ∷ ("B", text b) ∷ []))

  unfoldable pub pair_errors : Option String → Option String → Option (Json F) → List EvidenceError
  pair_errors (some a) (some b) content_hash =
      error_if (a == b) identical_contents
      ++ error_if (not (is_text content_hash (canonical_hash (combined a b)))) combined_hash_invalid
  pair_errors a b content_hash = []

  abbrev pub is_true : Option (Json F) → Bool
  is_true (some (boolean b)) = b
  is_true other = false

  abbrev pub anti_precompute_ok : Option (Json F) → Bool
  anti_precompute_ok value = elim (as_object value) [
    | none ↦ false
    | some gate ↦
        is_text (get gate "candidate_prepare_fixture") "A"
        && is_text_list (get gate "required_execution_fixtures") ("A" ∷ "B" ∷ [])
        && is_true (get gate "same_shape_different_content")
  ]

  unfoldable pub evidence_errors :
      Option (Json F) → Dict (Json F) → Dict (Json F) → List EvidenceError
  evidence_errors content_hash fixtures lifecycle =
      let a = fixture_hash fixtures "A" in
      let b = fixture_hash fixtures "B" in
      hash_errors a "A"
      ++ (hash_errors b "B"
          ++ (pair_errors a b content_hash
              ++ (error_if
                    (not (
                      h.same_value (get lifecycle "fixtures") (some (object (to_fields fixtures)))))
                    fixtures_differ
                  ++ (error_if
                        (not (h.same_value (get lifecycle "input_content_hash") content_hash))
                        input_hash_differs
                      ++ error_if (not (anti_precompute_ok (get lifecycle "anti_precompute_gate")))
                          anti_precompute_invalid))))

  unfoldable pub input_evidence_errors : Dict (Json F) → List EvidenceError
  input_evidence_errors evidence = elim (as_object (get evidence "input_fixtures")) [
    | none ↦ no_input_evidence ∷ []
    | some fixtures ↦ elim (as_object (get evidence "lifecycle")) [
      | none ↦ no_input_evidence ∷ []
      | some lifecycle ↦ evidence_errors (get evidence "input_content_hash") fixtures lifecycle
    ]
  ]
