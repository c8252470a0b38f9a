-- ===== src/Config/Readers.antt =====
-- What the readers of config.py establish when they return.
use fused_index_top_k.Base.{
  ℕ, ◌≤◌, ◌≡◌, ap, subst, String, not, List, [], ◌∷◌, ℤ, leb, string_eq, nat_eq, length, frozenset,
  IsUnique, Dict, Result, ok, raise_if, >>=-eq-ok, sorted, arith,
}
use fused_index_top_k.Config.{
  Json, null, boolean, integer, real, text, array, object, no_items, item, ConfigError, not_a_list,
  not_increasing, not_ordered, CaseShapeConfig, shape_eq, shape_leb,
}
use fused_index_top_k.Config.Read.{
  list_eqb, collect, mapping, at, read_integer, nonempty_list, ordered_unique_ints, read_case_shape,
  ordered_unique_case_shapes, integer_at,
}
use fused_index_top_k.Graph.Validate.Parts.{>>-ok}
use fused_index_top_k.Config.Ordered.{
  IsAscending, canonical_iff, leb_total, leb_trans, shape_leb_total, shape_leb_trans,
}

-- 1 <= query_tokens <= context_tokens
abbrev pub IsCaseShape : CaseShapeConfig → Type 0
IsCaseShape shape = (1 ≤ shape.query_tokens) × (shape.query_tokens ≤ shape.context_tokens)

abbrev pub All : {A : Type 0} → (A → Type 0) → List A → Type 0
All P [] = Unit
All P (x ∷ xs) = P x × All P xs

-- At least one case, each with its queries in the context, in order and each once.
pub record IsMatrix (cases : List CaseShapeConfig) : Type 0 where
  pub some_case : 1 ≤ length cases
  pub case_shapes : All IsCaseShape cases
  pub ascending : IsAscending shape_leb cases
  pub unique : IsUnique cases

pub record AreLengths (lengths : List ℕ) : Type 0 where
  pub some_length : 1 ≤ length lengths
  pub positive : All (λ n. 1 ≤ n) lengths
  pub ascending_lengths : IsAscending leb lengths
  pub unique_lengths : IsUnique lengths

pub collect-All :
    {E A B : Type 0} (f : A → Result E B) (P : B → Type 0)
    → ((x : A) (y : B) → f x ≡ ok y → P y)
    → (xs : List A) (ys : List B) → collect f xs ≡ ok ys
    → All P ys × (length ys ≡ length xs)
collect-All f P each [] ys h = grind arith
collect-All f P each (x ∷ xs) ys h =
    let (y, first, rest) = >>=-eq-ok (f x) _ h in
    let (zs, later, done) = >>=-eq-ok (collect f xs) _ rest in
    let (all, same) = collect-All f P each xs zs later in
    grind (arith, each x y first, all, same, done)

module _ {F : Type 0} where
  pub read_integer-le : (m : ℕ) (v : Json F) (n : ℕ) → read_integer m v ≡ ok n → m ≤ n
  unfolding read_integer
  read_integer-le m (integer (ℤ.pos k)) n h = ground arith
  read_integer-le m (integer (ℤ.negsuc k)) n h = ground arith
  read_integer-le m null n h = ground arith
  read_integer-le m (boolean b) n h = ground arith
  read_integer-le m (real x) n h = ground arith
  read_integer-le m (text s) n h = ground arith
  read_integer-le m (array xs) n h = ground arith
  read_integer-le m (object fs) n h = ground arith

  pub integer_at-le :
      (m : ℕ) (d : Dict (Json F)) (k : String) (n : ℕ) → integer_at m d k ≡ ok n → m ≤ n
  integer_at-le m d k n h = let (v, _, read) = >>=-eq-ok (at d k) _ h in read_integer-le m v n read

  nonempty_list-length :
      (v : Json F) (e : ConfigError) (xs : List (Json F))
      → nonempty_list v e ≡ ok xs
      → 1 ≤ length xs
  unfolding nonempty_list
  nonempty_list-length (array (item x xs)) e ys h = grind (arith, ap (λ r. r) h)
  nonempty_list-length (array no_items) e ys h = ground arith
  nonempty_list-length null e ys h = ground arith
  nonempty_list-length (boolean b) e ys h = ground arith
  nonempty_list-length (integer n) e ys h = ground arith
  nonempty_list-length (real x) e ys h = ground arith
  nonempty_list-length (text s) e ys h = ground arith
  nonempty_list-length (object fs) e ys h = ground arith

  read_case_shape-IsCaseShape :
      (v : Json F) (shape : CaseShapeConfig) → read_case_shape v ≡ ok shape → IsCaseShape shape
  unfolding read_case_shape
  read_case_shape-IsCaseShape v shape h =
      let (entry, _, h1) = >>=-eq-ok (mapping v ("query_tokens" ∷ "context_tokens" ∷ [])) _ h in
      let (query_raw, _, h2) = >>=-eq-ok (at entry "query_tokens") _ h1 in
      let (query, q, h3) = >>=-eq-ok (read_integer 1 query_raw) _ h2 in
      let (context_raw, _, h4) = >>=-eq-ok (at entry "context_tokens") _ h3 in
      let (context, _, h5) = >>=-eq-ok (read_integer 1 context_raw) _ h4 in
      ground (arith, read_integer-le 1 query_raw query q, h5)

  pub ordered_unique_case_shapes-IsMatrix :
      (v : Json F) (cases : List CaseShapeConfig)
      → ordered_unique_case_shapes v ≡ ok cases
      → IsMatrix cases
  unfolding ordered_unique_case_shapes
  ordered_unique_case_shapes-IsMatrix v cases h =
      let (items, given, h1) = >>=-eq-ok (nonempty_list v not_a_list) _ h in
      let (result, read, h2) = >>=-eq-ok (collect read_case_shape items) _ h1 in
      let (all, same) =
        collect-All read_case_shape IsCaseShape read_case_shape-IsCaseShape items result read in
      let canonical = list_eqb (sorted shape_leb (frozenset result)) result in
      let (checked, is) = >>-ok (raise_if (not canonical) not_ordered) (ok result) h2 in
      let (ascending, unique) =
        (canonical_iff shape_leb shape_leb_total shape_leb_trans result).0 (ground arith) in
      subst IsMatrix (grind (arith, is)) (record {
        some_case = omega (arith, nonempty_list-length v not_a_list items given, same);
        case_shapes = all;
        ascending = ascending;
        unique = unique;
      })

  pub ordered_unique_ints-AreLengths :
      (v : Json F) (lengths : List ℕ) → ordered_unique_ints v ≡ ok lengths → AreLengths lengths
  unfolding ordered_unique_ints
  ordered_unique_ints-AreLengths v lengths h =
      let (items, given, h1) = >>=-eq-ok (nonempty_list v not_a_list) _ h in
      let (result, read, h2) = >>=-eq-ok (collect (read_integer 1) items) _ h1 in
      let (all, same) =
        collect-All (read_integer 1) (λ n. 1 ≤ n) (read_integer-le 1) items result read in
      let canonical = list_eqb (sorted leb (frozenset result)) result in
      let (checked, is) = >>-ok (raise_if (not canonical) not_increasing) (ok result) h2 in
      let (ascending, unique) = (canonical_iff leb leb_total leb_trans result).0 (ground arith) in
      subst AreLengths (grind (arith, is)) (record {
        some_length = omega (arith, nonempty_list-length v not_a_list items given, same);
        positive = all;
        ascending_lengths = ascending;
        unique_lengths = unique;
      })
