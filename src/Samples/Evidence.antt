-- ===== src/Samples/Evidence.antt =====
-- The evidence of one case; a manifest is hashed by its first key.
use fused_index_top_k.Base.{
  ℕ, ◌≡◌, refl, sym, ap, ◌∙◌, inl, inr, List, ◌++◌, Member, if◌then◌else◌, eqb, ◌==◌, String, Bool,
  true, false, Option, some, [], ◌∷◌, string_eq, nat_eq, Dict,
}
use fused_index_top_k.Config.{
  Json, null, boolean, text, array, object, field, to_items, to_fields, shape_eq,
}
use fused_index_top_k.Comparison.{
  check_records, check_positions, gate_errors, fixture_gate_errors, Hashing, fixture_hash,
  pair_errors, evidence_errors, input_evidence_errors,
}
use fused_index_top_k.Config.Cases.{decimal}
use fused_index_top_k.Comparison.Evidence.{IsPassedGate, fixture_gate_errors-IsPassedGate}
use fused_index_top_k.Comparison.Declared.{manifest_at}
use fused_index_top_k.Comparison.Binding.{
  hashed_texts, HasInputs, NoCollision, PairsAreRead, input_evidence_errors-binds,
}
use fused_index_top_k.Graph.Validate.{codes}
use Prim.Native.String

abbrev entries : Dict (Json ℕ) → Json ℕ
entries d = object (to_fields d)

abbrev str_of : Option (Json ℕ) → String
str_of (some (text s)) = s
str_of other = "None"

abbrev passed : Json ℕ
passed = entries (("status", text "passed") ∷ [])

abbrev fixture_check : String → Json ℕ
fixture_check id =
    entries (
      ("fixture_id", text id) ∷ ("contract_check", passed) ∷ ("exact_reference_check", passed) ∷ [])

abbrev gate : Json ℕ
gate = entries (
    ("status", text "passed")
    ∷ ("order", array (to_items (text "B" ∷ text "A" ∷ [])))
    ∷ ("checks", entries (("0:B", fixture_check "B") ∷ ("1:A", fixture_check "A") ∷ []))
    ∷ [])

gate_ok : fixture_gate_errors str_of (some gate) ("B" ∷ "A" ∷ []) ≡ []
unfolding fixture_gate_errors gate_errors check_positions check_records decimal
gate_ok = refl

fixture_gate_errors-IsPassedGate_example : IsPassedGate str_of (some gate) ("B" ∷ "A" ∷ [])
fixture_gate_errors-IsPassedGate_example =
    fixture_gate_errors-IsPassedGate str_of (some gate) ("B" ∷ "A" ∷ []) gate_ok

-- A text for the joint object and one for a manifest.
abbrev json_text : Json ℕ → String
json_text (object (field k (text s) (field l (text t) fs))) = String.◌++◌ s t
json_text (object (field k v fs)) = k
json_text other = ""

abbrev pick : Bool → Bool → String
pick true b = "1"
pick false true = "2"
pick false false = "3"

-- A digest of one digit, and the text of this evidence that it stands for.
abbrev digest : String → String
digest s = pick (s == "a") (s == "b")

abbrev undigest : String → String
undigest d = if d == "1" then "a" else if d == "2" then "b" else "12"

abbrev left_of : String → String
left_of s = elim (codes s) [ [] ↦ "" | c ∷ cs ↦ pick (eqb c b'1') (eqb c b'2') ]

abbrev right_of : String → String
right_of s = elim (codes s) [
  | [] ↦ ""
  | c ∷ cs ↦ elim cs [ [] ↦ "" | d ∷ ds ↦ pick (eqb d b'1') (eqb d b'2') ]
]

abbrev same : Option (Json ℕ) → Option (Json ℕ) → Bool
same (some a) (some b) = true
same a b = false

abbrev hashing : Hashing ℕ
hashing = record { canonical_json = json_text; sha256 = digest; same_value = same }

left_of-pick : (a b c d : Bool) → left_of (String.◌++◌ (pick a b) (pick c d)) ≡ pick a b
left_of-pick true b true d = refl
left_of-pick true b false true = refl
left_of-pick true b false false = refl
left_of-pick false true true d = refl
left_of-pick false true false true = refl
left_of-pick false true false false = refl
left_of-pick false false true d = refl
left_of-pick false false false true = refl
left_of-pick false false false false = refl

right_of-pick : (a b c d : Bool) → right_of (String.◌++◌ (pick a b) (pick c d)) ≡ pick c d
right_of-pick true b true d = refl
right_of-pick true b false true = refl
right_of-pick true b false false = refl
right_of-pick false true true d = refl
right_of-pick false true false true = refl
right_of-pick false true false false = refl
right_of-pick false false true d = refl
right_of-pick false false false true = refl
right_of-pick false false false false = refl

pairs_are_read : PairsAreRead hashing
pairs_are_read s t u v e = (
  sym (left_of-pick (s == "a") (s == "b") (t == "a") (t == "b"))
      ∙ ap left_of e
      ∙ left_of-pick (u == "a") (u == "b") (v == "a") (v == "b"),
  sym (right_of-pick (s == "a") (s == "b") (t == "a") (t == "b"))
      ∙ ap right_of e
      ∙ right_of-pick (u == "a") (u == "b") (v == "a") (v == "b"),
)

abbrev fixture : String → Json ℕ
fixture key = entries (
    (
      "content",
      entries (("manifest", entries ((key, null) ∷ [])) ∷ ("sha256", text (digest key)) ∷ []),
    )
    ∷ [])

abbrev fixtures : Json ℕ
fixtures = entries (("A", fixture "a") ∷ ("B", fixture "b") ∷ [])

abbrev evidence : Dict (Json ℕ)
evidence =
    ("input_content_hash", text "3")
    ∷ ("input_fixtures", fixtures)
    ∷ (
      "lifecycle",
      entries (
          ("fixtures", fixtures)
          ∷ ("input_content_hash", text "3")
          ∷ (
            "anti_precompute_gate",
            entries (
                ("candidate_prepare_fixture", text "A")
                ∷ ("required_execution_fixtures", array (to_items (text "A" ∷ text "B" ∷ [])))
                ∷ ("same_shape_different_content", boolean true)
                ∷ []),
          )
          ∷ []),
    )
    ∷ []

evidence_ok : input_evidence_errors hashing evidence ≡ []
unfolding input_evidence_errors evidence_errors fixture_hash pair_errors
evidence_ok = refl

abbrev texts : List String
texts = "a" ∷ "b" ∷ "12" ∷ "a" ∷ "b" ∷ "12" ∷ []

undigest-digest : (s : String) → Member s texts → undigest (digest s) ≡ s
undigest-digest s (inl e) = rw e refl
undigest-digest s (inr (inl e)) = rw e refl
undigest-digest s (inr (inr (inl e))) = rw e refl
undigest-digest s (inr (inr (inr (inl e)))) = rw e refl
undigest-digest s (inr (inr (inr (inr (inl e))))) = rw e refl
undigest-digest s (inr (inr (inr (inr (inr (inl e)))))) = rw e refl
undigest-digest s (inr (inr (inr (inr (inr (inr never)))))) = absurd never

no_collision : NoCollision hashing (hashed_texts hashing evidence ++ hashed_texts hashing evidence)
unfolding manifest_at
no_collision s t m n e = sym (undigest-digest s m) ∙ ap undigest e ∙ undigest-digest t n

input_evidence_errors-binds_example :
    (i : HasInputs hashing evidence) × (j : HasInputs hashing evidence) × (json_text i.manifest_a
      ≡ json_text j.manifest_a)
    × (json_text i.manifest_b ≡ json_text j.manifest_b)
input_evidence_errors-binds_example =
    input_evidence_errors-binds hashing evidence evidence evidence_ok evidence_ok no_collision
      pairs_are_read refl
