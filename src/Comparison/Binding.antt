-- ===== src/Comparison/Binding.antt =====
-- Evidence without errors binds the inputs by its content hash.
use fused_index_top_k.Base.{
  ◌≡◌, ◌≢◌, refl, sym, ap, ap₂, ◌∙◌, subst, inl, inr, String, Bool, true, false, Option, none, some,
  List, [], ◌∷◌, ◌++◌, string_eq, nat_eq, Dict, get, Member, arith, eq_iff,
}
use fused_index_top_k.Config.{Json, text, object, to_fields, shape_eq}
use fused_index_top_k.Comparison.{
  as_object, Hashing, canonical_hash, combined, input_evidence_errors,
}
use fused_index_top_k.Comparison.Inputs.{IsHashed, IsEvidence, input_evidence_errors-IsEvidence}
use fused_index_top_k.Comparison.Declared.{
  is_text-eq, under, object_of, manifest_at, IsDeclared, anti_precompute_ok-IsDeclared,
}

not_both : (b : Bool) → b ≡ true → b ≡ false → ⊥
not_both b p q = ground arith

module _ {F : Type 0} (h : Hashing F) where
  -- The texts that are hashed in the evidence: the manifests A and B, and their digests together.
  abbrev pub hashed_texts : Dict (Json F) → List String
  hashed_texts evidence = elim (manifest_at evidence "A") [
    | none ↦ []
    | some a ↦ elim (manifest_at evidence "B") [
      | none ↦ []
      | some b ↦
          h.canonical_json a
          ∷ h.canonical_json b
          ∷ h.canonical_json (combined h (canonical_hash h a) (canonical_hash h b))
          ∷ []
    ]
  ]

  -- The inputs of the evidence: two different manifests, bound by the content hash.
  pub record HasInputs (evidence : Dict (Json F)) : Type 0 where
    pub manifest_a : Json F
    pub manifest_b : Json F
    pub at_a : manifest_at evidence "A" ≡ some manifest_a
    pub at_b : manifest_at evidence "B" ≡ some manifest_b
    pub different : h.canonical_json manifest_a ≢ h.canonical_json manifest_b
    pub joint :
        get evidence "input_content_hash"
        ≡ some (
            text (
              canonical_hash h
                (combined h (canonical_hash h manifest_a) (canonical_hash h manifest_b))))
    pub declared : IsDeclared evidence

  text_eq : (s t : String) → ◌≡◌ {A = Option (Json F)} (some (text s)) (some (text t)) → s ≡ t
  text_eq s t e = ground arith

  IsHashed-manifest_at :
      (evidence fixtures : Dict (Json F)) (id digest : String)
      → as_object (get evidence "input_fixtures") ≡ some fixtures
      → (hashed : IsHashed h fixtures id digest)
      → manifest_at evidence id ≡ some (object (to_fields hashed.manifest))
  unfolding manifest_at
  IsHashed-manifest_at evidence fixtures id digest f hashed =
      rw (f, under, hashed.has_fixture, hashed.has_content, hashed.has_manifest, object_of)

  IsEvidence-HasInputs : (evidence : Dict (Json F)) → IsEvidence h evidence → HasInputs evidence
  IsEvidence-HasInputs evidence e = record {
    manifest_a = object (to_fields e.hashed_a.manifest);
    manifest_b = object (to_fields e.hashed_b.manifest);
    at_a = IsHashed-manifest_at evidence e.fixtures "A" e.hash_a e.has_fixtures e.hashed_a;
    at_b = IsHashed-manifest_at evidence e.fixtures "B" e.hash_b e.has_fixtures e.hashed_b;
    different = λ same.
        not_both _
          ((eq_iff e.hash_a e.hash_b).1
            (e.hashed_a.is_digest ∙ ap h.sha256 same ∙ sym e.hashed_b.is_digest))
          e.different;
    joint =
        is_text-eq (get evidence "input_content_hash") _
          (rw (← e.hashed_a.is_digest, ← e.hashed_b.is_digest) e.combined_hash);
    declared = anti_precompute_ok-IsDeclared h evidence e.lifecycle e.has_lifecycle e.no_precompute;
  }

  hashed_texts_of :
      (evidence : Dict (Json F)) (i : HasInputs evidence)
      → hashed_texts evidence ≡ (
          h.canonical_json i.manifest_a
          ∷ h.canonical_json i.manifest_b
          ∷ h.canonical_json
              (combined h (canonical_hash h i.manifest_a) (canonical_hash h i.manifest_b))
          ∷ [])
  hashed_texts_of evidence i = rw (i.at_a, hashed_texts, i.at_b)

  -- Two texts among these with the same digest are the same.
  abbrev pub NoCollision : List String → Type 0
  NoCollision texts =
      (s t : String) → Member s texts → Member t texts → h.sha256 s ≡ h.sha256 t → s ≡ t

  -- The JSON text of the joint object determines the two digests.
  abbrev pub PairsAreRead : Type 0
  PairsAreRead =
      (s t u v : String)
      → h.canonical_json (combined h (h.sha256 s) (h.sha256 t))
        ≡ h.canonical_json (combined h (h.sha256 u) (h.sha256 v))
      → (h.sha256 s ≡ h.sha256 u) × (h.sha256 t ≡ h.sha256 v)

  -- Let the evidence of two artifacts have no errors, and the digests of the texts that are hashed in
  -- them not collide, with a JSON text that determines the digests in the joint object. Each evidence
  -- then has a manifest for the fixtures A and B whose JSON texts differ, has their joint digest as its
  -- content hash, and declares in its lifecycle that the candidate is prepared on A and has to run on
  -- A and B, of the same shape and different content. If the two content hashes are the same, so
  -- are the JSON texts of the manifests, of A and of B.
  pub input_evidence_errors-binds :
      (one two : Dict (Json F))
      → input_evidence_errors h one ≡ []
      → input_evidence_errors h two ≡ []
      → NoCollision (hashed_texts one ++ hashed_texts two)
      → PairsAreRead
      → get one "input_content_hash" ≡ get two "input_content_hash"
      → (i : HasInputs one) × (j : HasInputs two) × (h.canonical_json i.manifest_a
          ≡ h.canonical_json j.manifest_a)
        × (h.canonical_json i.manifest_b ≡ h.canonical_json j.manifest_b)
  input_evidence_errors-binds one two e f apart read same =
      let i = IsEvidence-HasInputs one (input_evidence_errors-IsEvidence h one e) in
      let j = IsEvidence-HasInputs two (input_evidence_errors-IsEvidence h two f) in
      let unique =
        subst NoCollision (ap₂ (λ xs ys. xs ++ ys) (hashed_texts_of one i) (hashed_texts_of two j))
          apart in
      let joint = text_eq _ _ (sym i.joint ∙ same ∙ j.joint) in
      let whole =
        unique _ _ (inr (inr (inl refl))) (inr (inr (inr (inr (inr (inl refl)))))) joint in
      let (a, b) = read _ _ _ _ whole in
      (
        i,
        j,
        unique _ _ (inl refl) (inr (inr (inr (inl refl)))) a,
        unique _ _ (inr (inl refl)) (inr (inr (inr (inr (inl refl))))) b,
      )
