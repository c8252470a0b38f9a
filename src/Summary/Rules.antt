-- ===== src/Summary/Rules.antt =====
-- What a measurement row that is accepted keeps.
use fused_index_top_k.Base.{
  ℕ, ◌≡◌, refl, sym, ap, subst, ◌∙◌, inl, inr, String, Bool, true, not, ◌||◌, Option, none, some,
  [], ◌∷◌, ℤ, string_eq, nat_eq, diff, Dict, keys, get, put, ok, raise_if, >>=-eq-ok, returned,
  arith, eq_iff, Option-cases, get-put,
}
use fused_index_top_k.Config.{Json, null, boolean, integer, real, text, array, object, shape_eq}
use fused_index_top_k.Summary.{
  missing_columns, bad_latency, negative_trial, not_positive, wrong_row, Coercions,
  measurement_columns, Required, rules, column, holds, keeps_rule, as_bool, to_number,
  coerce_integer, is_negative_integer, check_rule, finish_row, normalize_measurement, coerced,
}
use fused_index_top_k.Graph.{is_empty}
use fused_index_top_k.Graph.Validate.Parts.{>>-ok}

module _ {F : Type 0} where
  column-get :
      (row : Dict (Json F)) (key : String) (v : Json F)
      → column row key ≡ ok v
      → get row key ≡ some v
  unfolding column
  column-get row key v h = elim (Option-cases (get row key)) [
    | inl out ↦ ground arith
    | inr (u, is) ↦ is ∙ ap some (returned (λ x. u ≡ x) (rw (is, column) at h) refl)
  ]

  keeps_rule-holds :
      (row : Dict (Json F)) (rule : Dict Required) (key : String) (required : Required)
      → keeps_rule row rule ≡ true
      → get rule key ≡ some required
      → holds (get row key) required ≡ true
  keeps_rule-holds row [] key required h g = ground arith
  keeps_rule-holds row ((k, r) ∷ rule) key required h g =
      ground (arith, keeps_rule-holds row rule key required, eq_iff k key)

-- A row of a known pass, with the scope, the stage, the source and the derivation that the pass
-- requires, a finite positive latency and a trial number.
pub record IsRow {F : Type 0} (c : Coercions F) (row : Dict (Json F)) : Type 0 where
  pub pass : Json F
  pub has_pass : get row "pass" ≡ some pass
  pub rule : Dict Required
  pub is_rule : get rules (c.str_of pass) ≡ some rule
  pub kept :
      (key : String) (required : Required)
      → get rule key ≡ some required
      → holds (get row key) required ≡ true
  pub latency : F
  pub has_latency : get row "latency_ms" ≡ some (real latency)
  pub finite : c.is_finite latency ≡ true
  pub positive : c.is_positive latency ≡ true
  pub trial : ℕ
  pub has_trial : get row "trial_id" ≡ some (integer (ℤ.pos trial))

module _ {F : Type 0} (c : Coercions F) where
  check_rule-kept :
      (row result : Dict (Json F)) (latency : F) (o : Option (Dict Required))
      → check_rule c row latency o ≡ ok result
      → (rule : Dict Required) × (o ≡ some rule)
        × (result ≡ row)
        × (c.is_positive latency ≡ true)
        × (keeps_rule row rule ≡ true)
  unfolding check_rule
  check_rule-kept row result latency none h = ground arith
  check_rule-kept row result latency (some rule) h =
      let (p, h1) = >>-ok (raise_if (not (c.is_positive latency)) not_positive) _ h in
      let (k, is) = >>-ok (raise_if (not (keeps_rule row rule)) wrong_row) (ok row) h1 in
      (rule, refl, sym (returned (λ x. row ≡ x) is refl), ground arith, ground arith)

  natural :
      (n : ℤ) → raise_if (is_negative_integer c n) negative_trial ≡ ok tt → (k : ℕ) × (n ≡ ℤ.pos k)
  natural (ℤ.pos k) h = (k, refl)
  natural (ℤ.negsuc k) h = ground arith

  coerced-eq-integer : (v : Json F) (n : ℤ) → coerced c v ≡ ok n → v ≡ integer n
  coerced-eq-integer (integer m) n h = ap (λ k. integer k) (returned (λ x. m ≡ x) h refl)
  coerced-eq-integer null n h = ground arith
  coerced-eq-integer (boolean b) n h = ground arith
  coerced-eq-integer (real x) n h = ground arith
  coerced-eq-integer (text t) n h = ground arith
  coerced-eq-integer (array xs) n h = ground arith
  coerced-eq-integer (object fs) n h = ground arith

  latency_kept :
      (row : Dict (Json F)) (latency : F) (derived : Bool)
      → get (put (put row "latency_ms" (real latency)) "derived" (boolean derived)) "latency_ms"
        ≡ some (real latency)
  latency_kept row latency derived =
      get-put (put row "latency_ms" (real latency)) "derived" (boolean derived) "latency_ms"
      ∙ get-put row "latency_ms" (real latency) "latency_ms"

  finish_row-IsRow : (row result : Dict (Json F)) → finish_row c row ≡ ok result → IsRow c result
  unfolding finish_row
  finish_row-IsRow row result h =
      let (latency_raw, _, h1) = >>=-eq-ok (column row "latency_ms") _ h in
      let (latency, _, h2) = >>=-eq-ok (to_number c latency_raw) _ h1 in
      let (derived_raw, _, h3) = >>=-eq-ok (column row "derived") _ h2 in
      let (derived, _, h4) = >>=-eq-ok (as_bool c derived_raw) _ h3 in
      let made = put (put row "latency_ms" (real latency)) "derived" (boolean derived) in
      let (finite, h5) =
        >>-ok (raise_if (not (c.is_finite latency) || c.is_negative latency) bad_latency) _ h4 in
      let (trial_raw, has_trial, h6) = >>=-eq-ok (column made "trial_id") _ h5 in
      let (trial, is_trial, h7) = >>=-eq-ok (coerced c trial_raw) _ h6 in
      let (nonneg, h8) = >>-ok (raise_if (is_negative_integer c trial) negative_trial) _ h7 in
      let (pass, has_pass, h9) = >>=-eq-ok (column made "pass") _ h8 in
      let (rule, is_rule, same, positive, keeps) =
        check_rule-kept made result latency (get rules (c.str_of pass)) h9 in
      let (k, is_k) = natural trial nonneg in
      subst (IsRow c) (sym same) (record {
        pass = pass;
        has_pass = column-get made "pass" pass has_pass;
        rule = rule;
        is_rule = is_rule;
        kept = λ key required g. keeps_rule-holds made rule key required keeps g;
        latency = latency;
        has_latency = latency_kept row latency derived;
        finite = ground arith;
        positive = positive;
        trial = k;
        has_trial =
            column-get made "trial_id" trial_raw has_trial
            ∙ ap some (coerced-eq-integer trial_raw trial is_trial ∙ ap (λ n. integer n) is_k);
      })

  -- A row that `normalize_measurement` returns is of one of the seven passes and has the values that
  -- this pass requires of its scope, its stage, its timing source and its derivation; so a row of the
  -- formal metric is a total of the operator that CUPTI timed. Its latency is a finite positive
  -- number and its trial is not negative.
  pub normalize_measurement-IsRow :
      (row result : Dict (Json F)) → normalize_measurement c row ≡ ok result → IsRow c result
  unfolding normalize_measurement
  normalize_measurement-IsRow row result h =
      let (_, h1) =
        >>-ok (raise_if (not (is_empty (diff measurement_columns (keys row)))) missing_columns) _
          h in
      let (first, _, h2) = >>=-eq-ok (coerce_integer c row "query_tokens") _ h1 in
      let (second, _, h3) = >>=-eq-ok (coerce_integer c first "context_tokens") _ h2 in
      let (third, _, h4) = >>=-eq-ok (coerce_integer c second "top_k") _ h3 in
      let (fourth, _, h5) = >>=-eq-ok (coerce_integer c third "trial_id") _ h4 in
      finish_row-IsRow fourth result h5
