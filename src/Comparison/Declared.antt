-- ===== src/Comparison/Declared.antt =====
-- What is found in the evidence of a case, and what its lifecycle declares.
use fused_index_top_k.Base.{
  ◌≡◌, refl, ap, ◌&&◌, inl, inr, String, Bool, true, Option, none, some, List, [], ◌∷◌, map,
  string_eq, nat_eq, Dict, get, arith, eq_iff, Bool-cases, Option-cases,
}
use fused_index_top_k.Config.{
  Json, null, boolean, integer, real, text, array, object, Items, items_of, to_fields, shape_eq,
}
use fused_index_top_k.Comparison.{
  as_object, is_text, are_texts, is_text_list, is_true, Hashing, anti_precompute_ok,
}

three_true : (a b c : Bool) → (a && b && c) ≡ true → (a ≡ true) × (b ≡ true) × (c ≡ true)
three_true a b c h = ground arith

module _ {F : Type 0} where
  pub is_text-eq : (o : Option (Json F)) (t : String) → is_text o t ≡ true → o ≡ some (text t)
  is_text-eq (some (text s)) t h = ap (λ (u : String). some (text u)) ((eq_iff s t).0 h)
  is_text-eq (some null) t h = ground arith
  is_text-eq (some (boolean b)) t h = ground arith
  is_text-eq (some (integer n)) t h = ground arith
  is_text-eq (some (real x)) t h = ground arith
  is_text-eq (some (array xs)) t h = ground arith
  is_text-eq (some (object fs)) t h = ground arith
  is_text-eq none t h = ground arith

  -- What the path `input_fixtures`, the fixture's ID, `content`, `manifest` leads to.
  abbrev pub under : Option (Json F) → String → Option (Json F)
  under value key = elim (as_object value) [
    | none ↦ none
    | some fields_found ↦ get fields_found key
  ]

  abbrev pub object_of : Option (Json F) → Option (Json F)
  object_of value = elim (as_object value) [
    | none ↦ none
    | some fields_found ↦ some (object (to_fields fields_found))
  ]

  unfoldable pub manifest_at : Dict (Json F) → String → Option (Json F)
  manifest_at evidence id =
      object_of (under (under (under (get evidence "input_fixtures") id) "content") "manifest")

  -- The lifecycle of the evidence declares how the candidate is kept from precomputing.
  pub record IsDeclared (evidence : Dict (Json F)) : Type 0 where
    pub gate : Dict (Json F)
    pub has_gate : as_object (under (get evidence "lifecycle") "anti_precompute_gate") ≡ some gate
    pub prepared_on : get gate "candidate_prepare_fixture" ≡ some (text "A")
    pub executed_on :
        (xs : Items F) × (get gate "required_execution_fixtures" ≡ some (array xs))
        × (items_of xs ≡ text "A" ∷ text "B" ∷ [])
    pub same_shape : get gate "same_shape_different_content" ≡ some (boolean true)

  are_texts-eq :
      (xs : List (Json F)) (ts : List String) → are_texts xs ts ≡ true → xs ≡ map (λ t. text t) ts
  are_texts-eq [] [] h = refl
  are_texts-eq [] (t ∷ ts) h = ground arith
  are_texts-eq (x ∷ xs) [] h = ground arith
  are_texts-eq (x ∷ xs) (t ∷ ts) h = elim (Bool-cases (is_text (some x) t)) [
    | inl same ↦ ground (arith, is_text-eq (some x) t same, are_texts-eq xs ts (rw same at h))
    | inr other ↦ ground (arith, other)
  ]

  is_text_list-eq :
      (o : Option (Json F)) (ts : List String)
      → is_text_list o ts ≡ true
      → (xs : Items F) × (o ≡ some (array xs)) × (items_of xs ≡ map (λ t. text t) ts)
  is_text_list-eq (some (array xs)) ts h = (xs, refl, are_texts-eq (items_of xs) ts h)
  is_text_list-eq (some (text s)) ts h = ground arith
  is_text_list-eq (some null) ts h = ground arith
  is_text_list-eq (some (boolean b)) ts h = ground arith
  is_text_list-eq (some (integer n)) ts h = ground arith
  is_text_list-eq (some (real x)) ts h = ground arith
  is_text_list-eq (some (object fs)) ts h = ground arith
  is_text_list-eq none ts h = ground arith

module _ {F : Type 0} (h : Hashing F) where
  is_true-eq : (o : Option (Json F)) → is_true h o ≡ true → o ≡ some (boolean true)
  is_true-eq (some (boolean b)) e = ap (λ (u : Bool). some (boolean u)) e
  is_true-eq (some (text s)) e = ground arith
  is_true-eq (some null) e = ground arith
  is_true-eq (some (integer n)) e = ground arith
  is_true-eq (some (real x)) e = ground arith
  is_true-eq (some (array xs)) e = ground arith
  is_true-eq (some (object fs)) e = ground arith
  is_true-eq none e = ground arith

  pub anti_precompute_ok-IsDeclared :
      (evidence lifecycle : Dict (Json F))
      → as_object (get evidence "lifecycle") ≡ some lifecycle
      → anti_precompute_ok h (get lifecycle "anti_precompute_gate") ≡ true
      → IsDeclared evidence
  anti_precompute_ok-IsDeclared evidence lifecycle l e =
      elim (Option-cases (as_object (get lifecycle "anti_precompute_gate"))) [
        | inl out ↦ absurd (ground (arith, out))
        | inr (gate, g) ↦
            let tests =
              three_true (is_text (get gate "candidate_prepare_fixture") "A")
                (is_text_list (get gate "required_execution_fixtures") ("A" ∷ "B" ∷ [])) _
                (rw (g, anti_precompute_ok) at e) in
            record {
              gate = gate;
              has_gate = rw (l, under) g;
              prepared_on = is_text-eq (get gate "candidate_prepare_fixture") "A" tests.0;
              executed_on =
                  is_text_list-eq (get gate "required_execution_fixtures") ("A" ∷ "B" ∷ []) tests.1;
              same_shape = is_true-eq (get gate "same_shape_different_content") tests.2;
            }
      ]
