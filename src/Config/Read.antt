-- ===== src/Config/Read.antt =====
-- The readers of config.py, from `_mapping` to `_load_variants`.

use fused_index_top_k.Base.{
  ℕ, ℤ, String, Bool, true, false, not, ◌&&◌, ◌||◌, none, some, List, [], ◌∷◌, Dict, keys, get, put,
  diff, frozenset, length, sorted, leb, eqb, if◌then◌else◌, ◌==◌, Eq, string_eq, nat_eq, countb,
  Result, ok, err, ◌>>=◌, ◌>>◌, raise_if,
}
use fused_index_top_k.Graph.{is_empty}
use fused_index_top_k.Graph.Validate.{codes, is_lower}
use fused_index_top_k.Config.{
  Json, boolean, integer, real, text, array, object, item, field, items_of, fields_of, Floats,
  ConfigError, not_an_object, unknown_fields, missing_fields, not_an_integer, not_a_number,
  not_a_boolean, empty_text, unsafe_text, not_a_list, not_increasing, context_below_query,
  not_ordered, repeated_text, no_variants, bad_factory, options_not_an_object, key_error,
  overflow_error, CaseShapeConfig, VariantConfig, shape_eq, shape_leb,
}

-- `xs == ys` on tuples
abbrev pub list_eqb : {A : Type 0} ⦃e : Eq A⦄ → List A → List A → Bool
list_eqb [] [] = true
list_eqb [] (y ∷ ys) = false
list_eqb (x ∷ xs) [] = false
list_eqb (x ∷ xs) (y ∷ ys) = (x == y) && list_eqb xs ys

-- `tuple(f(x) for x in xs)`, with the first exception
abbrev pub collect : {E A B : Type 0} → (A → Result E B) → List A → Result E (List B)
collect f [] = ok []
collect f (x ∷ xs) = do y ← f x; ys ← collect f xs; ok (y ∷ ys)

abbrev pub is_letter : ℕ → Bool
is_letter c = is_lower c || (leb b'A' c && leb c b'Z')

abbrev pub is_digit : ℕ → Bool
is_digit c = leb b'0' c && leb c b'9'

abbrev pub all_name_chars : List ℕ → Bool
all_name_chars [] = true
all_name_chars (c ∷ cs) =
    (is_letter c || is_digit c || eqb c b'_' || eqb c b'.' || eqb c b'-') && all_name_chars cs

-- `_SAFE_NAME.fullmatch`
abbrev pub safe_name_codes : List ℕ → Bool
safe_name_codes [] = false
safe_name_codes (c ∷ cs) = is_letter c && all_name_chars cs

unfoldable pub safe_name : String → Bool
safe_name s = safe_name_codes (codes s)

abbrev pub all_hex : List ℕ → Bool
all_hex [] = true
all_hex (c ∷ cs) = (is_digit c || (leb b'a' c && leb c b'f')) && all_hex cs

-- `_HEX_COMMIT.fullmatch`
unfoldable pub hex_commit : String → Bool
hex_commit s = all_hex (codes s) && eqb (length (codes s)) 40

-- `factory.split(":")`
abbrev pub add_head : ℕ → List (List ℕ) → List (List ℕ)
add_head c [] = (c ∷ []) ∷ []
add_head c (part ∷ parts) = (c ∷ part) ∷ parts

abbrev pub split_colon : List ℕ → List (List ℕ)
split_colon [] = [] ∷ []
split_colon (c ∷ cs) =
    let rest = split_colon cs in if eqb c b':' then [] ∷ rest else add_head c rest

abbrev pub all_nonempty : List (List ℕ) → Bool
all_nonempty [] = true
all_nonempty (part ∷ parts) = not (eqb (length part) 0) && all_nonempty parts

-- `factory.count(":") == 1 and all(factory.split(":"))`
unfoldable pub good_factory : String → Bool
good_factory s = eqb (countb (λ c. eqb c b':') (codes s)) 1 && all_nonempty (split_colon (codes s))

abbrev pub is_empty_text : String → Bool
is_empty_text s = s == ""

module _ {F : Type 0} where
  unfoldable pub mapping : Json F → List String → Result ConfigError (Dict (Json F))
  mapping (object fs) allowed = do
    let value = fields_of fs
    raise_if (not (is_empty (diff (keys value) allowed))) unknown_fields
    raise_if (not (is_empty (diff allowed (keys value)))) missing_fields
    ok value
  mapping other allowed = err not_an_object

  -- `value[key]`
  unfoldable pub at : Dict (Json F) → String → Result ConfigError (Json F)
  at value key = elim (get value key) [ none ↦ err key_error | some v ↦ ok v ]

  unfoldable pub read_integer : ℕ → Json F → Result ConfigError ℕ
  read_integer minimum (integer (ℤ.pos n)) = if leb minimum n then ok n else err not_an_integer
  read_integer minimum other = err not_an_integer

  unfoldable pub read_number : Floats F → Json F → Result ConfigError F
  read_number fl (integer n) = elim (fl.float_of n) [
    | none ↦ err overflow_error
    | some x ↦ if not (fl.is_finite x) || fl.is_negative x then err not_a_number else ok x
  ]
  read_number fl (real x) =
      if not (fl.is_finite x) || fl.is_negative x then err not_a_number else ok x
  read_number fl other = err not_a_number

  unfoldable pub read_boolean : Json F → Result ConfigError Bool
  read_boolean (boolean b) = ok b
  read_boolean other = err not_a_boolean

  unfoldable pub read_string : Bool → Json F → Result ConfigError String
  read_string safe (text s) = do
    raise_if (is_empty_text s) empty_text
    raise_if (safe && not (safe_name s)) unsafe_text
    ok s
  read_string safe other = err empty_text

  -- `isinstance(value, list) and value`
  unfoldable pub nonempty_list : Json F → ConfigError → Result ConfigError (List (Json F))
  nonempty_list (array (item x xs)) e = ok (x ∷ items_of xs)
  nonempty_list other e = err e

  unfoldable pub ordered_unique_ints : Json F → Result ConfigError (List ℕ)
  ordered_unique_ints value = do
    items ← nonempty_list value not_a_list
    result ← collect (read_integer 1) items
    raise_if (not (list_eqb (sorted leb (frozenset result)) result)) not_increasing
    ok result

  unfoldable pub read_case_shape : Json F → Result ConfigError CaseShapeConfig
  read_case_shape raw = do
    entry ← mapping raw ("query_tokens" ∷ "context_tokens" ∷ [])
    query_raw ← at entry "query_tokens"
    query ← read_integer 1 query_raw
    context_raw ← at entry "context_tokens"
    context ← read_integer 1 context_raw
    raise_if (not (leb query context)) context_below_query
    ok (record { query_tokens = query; context_tokens = context })

  unfoldable pub ordered_unique_case_shapes : Json F → Result ConfigError (List CaseShapeConfig)
  ordered_unique_case_shapes value = do
    items ← nonempty_list value not_a_list
    result ← collect read_case_shape items
    raise_if (not (list_eqb (sorted shape_leb (frozenset result)) result)) not_ordered
    ok result

  unfoldable pub unique_strings : Json F → Result ConfigError (List String)
  unique_strings value = do
    items ← nonempty_list value not_a_list
    result ← collect (read_string false) items
    raise_if (not (eqb (length (frozenset result)) (length result))) repeated_text
    ok result

  abbrev pub options_of : String → Json F → Result ConfigError (VariantConfig F)
  options_of factory (object fs) = ok (record { factory = factory; options = fields_of fs })
  options_of factory other = err options_not_an_object

  unfoldable pub read_variant : Json F → Result ConfigError (VariantConfig F)
  read_variant raw = do
    entry ← mapping raw ("factory" ∷ "options" ∷ [])
    factory_raw ← at entry "factory"
    factory ← read_string false factory_raw
    raise_if (not (good_factory factory)) bad_factory
    options ← at entry "options"
    options_of factory options

  unfoldable pub load_each :
      Dict (Json F) → Dict (VariantConfig F) → Result ConfigError (Dict (VariantConfig F))
  load_each [] result = ok result
  load_each ((plugin_id, raw) ∷ rest) result = do
    name ← read_string true (text plugin_id)
    variant ← read_variant raw
    load_each rest (put result plugin_id variant)

  unfoldable pub load_variants : Json F → Result ConfigError (Dict (VariantConfig F))
  load_variants (object (field k v fs)) = load_each (fields_of (field k v fs)) []
  load_variants other = err no_variants

  -- `_string(raw[key])` and `_integer(raw[key], minimum)`
  abbrev pub string_at : Dict (Json F) → String → Result ConfigError String
  string_at raw key = at raw key >>= read_string false

  abbrev pub integer_at : ℕ → Dict (Json F) → String → Result ConfigError ℕ
  integer_at minimum raw key = at raw key >>= read_integer minimum
