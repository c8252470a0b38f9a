-- ===== src/Samples/Rows.antt =====
-- A row of the formal metric; a floating-point number is a natural number.
use fused_index_top_k.Base.{
  ℕ, ◌≡◌, refl, String, true, false, Option, none, some, [], ◌∷◌, ℤ, ltb, eqb, string_eq, nat_eq,
  Dict, ok,
}
use fused_index_top_k.Config.{Json, boolean, integer, real, text, shape_eq}
use fused_index_top_k.Summary.{
  Coercions, column, as_bool, to_integer, to_number, coerce_integer, check_rule, finish_row,
  normalize_measurement,
}
use fused_index_top_k.Summary.Rules.{IsRow, normalize_measurement-IsRow}

abbrev int_of : Json ℕ → Option ℤ
int_of (integer n) = some n
int_of other = none

abbrev float_of : Json ℕ → Option ℕ
float_of (real x) = some x
float_of other = none

abbrev str_of : Json ℕ → String
str_of (text s) = s
str_of other = ""

abbrev coercions : Coercions ℕ
coercions = record {
  int_of = int_of;
  float_of = float_of;
  str_of = str_of;
  word_of = str_of;
  is_finite = λ x. true;
  is_negative = λ x. false;
  is_positive = ltb 0;
  is_zero = λ x. eqb x 0;
  is_one = λ x. eqb x 1;
}

abbrev row : Dict (Json ℕ)
row =
    ("variant_id", text "exact")
    ∷ ("case_id", text "c")
    ∷ ("query_tokens", integer (ℤ.pos 2))
    ∷ ("context_tokens", integer (ℤ.pos 3))
    ∷ ("top_k", integer (ℤ.pos 2))
    ∷ ("pass", text "formal_kernel_sum")
    ∷ ("trial_id", integer (ℤ.pos 0))
    ∷ ("scope_id", text "operator_total")
    ∷ ("stage_id", text "operator_total")
    ∷ ("semantic_ops", text "")
    ∷ ("timing_source", text "kineto_cupti")
    ∷ ("latency_ms", real 5)
    ∷ ("derived", boolean false)
    ∷ []

normalized : normalize_measurement coercions row ≡ ok row
unfolding normalize_measurement finish_row check_rule coerce_integer to_integer to_number as_bool
    column
normalized = refl

normalize_measurement-IsRow_example : IsRow coercions row
normalize_measurement-IsRow_example = normalize_measurement-IsRow coercions row row normalized
