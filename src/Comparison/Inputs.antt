-- ===== src/Comparison/Inputs.antt =====
-- Input evidence without errors ties the fixtures to the lifecycle by their hashes.
use fused_index_top_k.Base.{
  ◌≡◌, refl, sym, subst, inl, inr, String, Bool, true, false, not, Option, none, some, [], ◌==◌,
  string_eq, nat_eq, Dict, get, some_eq, none_is_some, Bool-cases, Option-cases,
}
use fused_index_top_k.Config.{Json, object, to_fields, shape_eq}
use fused_index_top_k.Comparison.{
  no_input_evidence, content_hash_invalid, identical_contents, combined_hash_invalid,
  fixtures_differ, input_hash_differs, anti_precompute_invalid, error_if, as_object, is_text,
  Hashing, canonical_hash, fixture_hash, hash_errors, combined, pair_errors, anti_precompute_ok,
  evidence_errors, input_evidence_errors,
}
use fused_index_top_k.Comparison.Evidence.{append_empty, error_if-none, not_empty}

module _ {F : Type 0} (h : Hashing F) where
  -- The recorded hash of a fixture is that of its manifest.
  pub record IsHashed (fixtures : Dict (Json F)) (fixture_id digest : String) : Type 0 where
    pub fixture : Dict (Json F)
    pub content : Dict (Json F)
    pub manifest : Dict (Json F)
    pub has_fixture : as_object (get fixtures fixture_id) ≡ some fixture
    pub has_content : as_object (get fixture "content") ≡ some content
    pub has_manifest : as_object (get content "manifest") ≡ some manifest
    pub is_digest : digest ≡ canonical_hash h (object (to_fields manifest))
    pub recorded : is_text (get content "sha256") digest ≡ true

  pub record IsEvidence (evidence : Dict (Json F)) : Type 0 where
    pub fixtures : Dict (Json F)
    pub lifecycle : Dict (Json F)
    pub has_fixtures : as_object (get evidence "input_fixtures") ≡ some fixtures
    pub has_lifecycle : as_object (get evidence "lifecycle") ≡ some lifecycle
    pub hash_a : String
    pub hash_b : String
    pub hashed_a : IsHashed fixtures "A" hash_a
    pub hashed_b : IsHashed fixtures "B" hash_b
    pub different : (hash_a == hash_b) ≡ false
    pub combined_hash :
        is_text (get evidence "input_content_hash") (canonical_hash h (combined h hash_a hash_b))
        ≡ true
    pub same_fixtures :
        h.same_value (get lifecycle "fixtures") (some (object (to_fields fixtures))) ≡ true
    pub same_hash :
        h.same_value (get lifecycle "input_content_hash") (get evidence "input_content_hash") ≡ true
    pub no_precompute : anti_precompute_ok h (get lifecycle "anti_precompute_gate") ≡ true

  fixture_hash-IsHashed :
      (fixtures : Dict (Json F)) (id digest : String)
      → fixture_hash h fixtures id ≡ some digest
      → IsHashed fixtures id digest
  unfolding fixture_hash
  fixture_hash-IsHashed fixtures id digest e = elim (Option-cases (as_object (get fixtures id))) [
    | inl out ↦ absurd (none_is_some digest (rw (out, fixture_hash) at e))
    | inr (fixture, f) ↦ elim (Option-cases (as_object (get fixture "content"))) [
      | inl out ↦ absurd (none_is_some digest (rw (f, out, fixture_hash) at e))
      | inr (content, c) ↦ elim (Option-cases (as_object (get content "manifest"))) [
        | inl out ↦ absurd (none_is_some digest (rw (f, c, out, fixture_hash) at e))
        | inr (manifest, m) ↦
            let hash = canonical_hash h (object (to_fields manifest)) in
            elim (Bool-cases (is_text (get content "sha256") hash)) [
              | inr wrong ↦ absurd (none_is_some digest (rw (f, c, m, wrong, fixture_hash) at e))
              | inl right ↦
                  let same : hash ≡ digest =
                    some_eq hash digest (rw (f, c, m, right, fixture_hash) at e) in
                  record {
                    fixture = fixture;
                    content = content;
                    manifest = manifest;
                    has_fixture = f;
                    has_content = c;
                    has_manifest = m;
                    is_digest = sym same;
                    recorded = subst (λ d. is_text (get content "sha256") d ≡ true) same right;
                  }
            ]
      ]
    ]
  ]

  hash_errors-none :
      (o : Option String) (id : String)
      → hash_errors h o id ≡ []
      → (digest : String) × (o ≡ some digest)
  hash_errors-none none id e = absurd (not_empty (content_hash_invalid id) [] e)
  hash_errors-none (some digest) id e = (digest, refl)

  pair_errors-none :
      (a b : String) (content_hash : Option (Json F))
      → pair_errors h (some a) (some b) content_hash ≡ []
      → ((a == b) ≡ false) × (is_text content_hash (canonical_hash h (combined h a b)) ≡ true)
  unfolding pair_errors
  pair_errors-none a b content_hash e =
      let (same, whole) =
        append_empty (error_if (a == b) identical_contents)
          (error_if (not (is_text content_hash (canonical_hash h (combined h a b))))
            combined_hash_invalid)
          e in
      (
        is_false (a == b) same,
        error_if-none (is_text content_hash (canonical_hash h (combined h a b)))
            combined_hash_invalid whole,
      )
    where
      is_false : (b : Bool) → error_if b identical_contents ≡ [] → b ≡ false
      is_false true e = absurd (not_empty identical_contents [] e)
      is_false false e = refl

  evidence_errors-none :
      (evidence fixtures lifecycle : Dict (Json F))
      → as_object (get evidence "input_fixtures") ≡ some fixtures
      → as_object (get evidence "lifecycle") ≡ some lifecycle
      → evidence_errors h (get evidence "input_content_hash") fixtures lifecycle ≡ []
      → IsEvidence evidence
  unfolding evidence_errors
  evidence_errors-none evidence fixtures lifecycle f l e =
      let hash = get evidence "input_content_hash" in
      let (a, e1) = append_empty (hash_errors h (fixture_hash h fixtures "A") "A") _ e in
      let (b, e2) = append_empty (hash_errors h (fixture_hash h fixtures "B") "B") _ e1 in
      let (hash_a, is_a) = hash_errors-none (fixture_hash h fixtures "A") "A" a in
      let (hash_b, is_b) = hash_errors-none (fixture_hash h fixtures "B") "B" b in
      let (p, e3) =
        append_empty
          (pair_errors h (fixture_hash h fixtures "A") (fixture_hash h fixtures "B") hash) _ e2 in
      let (different, whole) = pair_errors-none hash_a hash_b hash (rw (is_a, is_b) at p) in
      let (same, e4) =
        append_empty
          (error_if
            (not (h.same_value (get lifecycle "fixtures") (some (object (to_fields fixtures)))))
            fixtures_differ)
          _ e3 in
      let (same_hash, gate) =
        append_empty
          (error_if (not (h.same_value (get lifecycle "input_content_hash") hash))
            input_hash_differs)
          _ e4 in
      record {
        fixtures = fixtures;
        lifecycle = lifecycle;
        has_fixtures = f;
        has_lifecycle = l;
        hash_a = hash_a;
        hash_b = hash_b;
        hashed_a = fixture_hash-IsHashed fixtures "A" hash_a is_a;
        hashed_b = fixture_hash-IsHashed fixtures "B" hash_b is_b;
        different = different;
        combined_hash = whole;
        same_fixtures = error_if-none _ fixtures_differ same;
        same_hash = error_if-none _ input_hash_differs same_hash;
        no_precompute = error_if-none _ anti_precompute_invalid gate;
      }

  -- Input evidence without errors has passed each test, for the two fixtures that were found.
  pub input_evidence_errors-IsEvidence :
      (evidence : Dict (Json F)) → input_evidence_errors h evidence ≡ [] → IsEvidence evidence
  unfolding input_evidence_errors
  input_evidence_errors-IsEvidence evidence e =
      elim (Option-cases (as_object (get evidence "input_fixtures"))) [
        | inl out ↦ absurd (not_empty no_input_evidence [] (rw (out, input_evidence_errors) at e))
        | inr (fixtures, f) ↦ elim (Option-cases (as_object (get evidence "lifecycle"))) [
          | inl out ↦
              absurd (not_empty no_input_evidence [] (rw (f, out, input_evidence_errors) at e))
          | inr (lifecycle, l) ↦
              evidence_errors-none evidence fixtures lifecycle f l
                (rw (f, l, input_evidence_errors) at e)
        ]
      ]
