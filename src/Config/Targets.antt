-- ===== src/Config/Targets.antt =====
-- The profiling targets of an accepted configuration.
use fused_index_top_k.Base.{
  ℕ, ◌≤◌, ◌≡◌, ◌∙◌, String, true, false, not, ◌||◌, List, ◌++◌, eqb, string_eq, nat_eq, length,
  contains, subset, frozenset, IsUnique, keys, ok, raise_if, >>=-eq-ok, returned, arith,
  contains-sorted, contains-frozenset, frozenset-IsUnique, sorted-IsUnique, subset-contains,
  contains-append, length-frozenset-IsUnique,
}
use fused_index_top_k.Config.{
  Json, null, boolean, integer, real, text, array, object, fields_of, not_a_list, repeated_text,
  not_benchmarked, CaseShapeConfig, ProfilingConfig, shape_eq, shape_leb,
}
use fused_index_top_k.Config.Read.{
  collect, at, read_string, nonempty_list, unique_strings, integer_at,
}
use fused_index_top_k.Graph.Validate.Parts.{>>-ok}
use fused_index_top_k.Config.Ordered.{
  IsAscending, shape_leb_total, shape_leb_trans, sorted-IsAscending,
}
use fused_index_top_k.Config.Readers.{integer_at-le}
use fused_index_top_k.Config.Profiling.{
  union_sorted, first_query, profiling_branch, parse_profiling,
}

-- The targets of both profilers, in order and each once, all among the benchmark cases.
pub record IsTargets (benchmark : List CaseShapeConfig) (p : ProfilingConfig) : Type 0 where
  pub united :
      (shape : CaseShapeConfig)
      → contains p.target_cases shape ≡ (contains p.nsys_cases shape || contains p.ncu_cases shape)
  pub benchmarked :
      (shape : CaseShapeConfig)
      → contains p.target_cases shape ≡ true
      → contains benchmark shape ≡ true
  pub target_order : IsAscending shape_leb p.target_cases
  pub target_once : IsUnique p.target_cases
  pub some_captured : 1 ≤ p.captured_iterations
  pub metrics_once : IsUnique p.ncu_metrics
  pub sections_once : IsUnique p.ncu_sections

union_sorted-contains :
    (xs ys : List CaseShapeConfig) (shape : CaseShapeConfig)
    → contains (union_sorted xs ys) shape ≡ (contains xs shape || contains ys shape)
unfolding union_sorted
union_sorted-contains xs ys shape =
    contains-sorted shape_leb (frozenset (xs ++ ys)) shape
    ∙ contains-frozenset (xs ++ ys) shape
    ∙ contains-append xs ys shape

union_sorted-IsAscending :
    (xs ys : List CaseShapeConfig) → IsAscending shape_leb (union_sorted xs ys)
unfolding union_sorted
union_sorted-IsAscending xs ys =
    sorted-IsAscending shape_leb shape_leb_total shape_leb_trans (frozenset (xs ++ ys))

union_sorted-IsUnique : (xs ys : List CaseShapeConfig) → IsUnique (union_sorted xs ys)
unfolding union_sorted
union_sorted-IsUnique xs ys =
    sorted-IsUnique shape_leb (frozenset (xs ++ ys)) (frozenset-IsUnique (xs ++ ys))

module _ {F : Type 0} where
  unique_strings-IsUnique : (v : Json F) (xs : List String) → unique_strings v ≡ ok xs → IsUnique xs
  unfolding unique_strings
  unique_strings-IsUnique v xs h =
      let (entries, _, h1) = >>=-eq-ok (nonempty_list v not_a_list) _ h in
      let (read, _, h2) = >>=-eq-ok (collect (read_string false) entries) _ h1 in
      let test = not (eqb (length (frozenset read)) (length read)) in
      let (once, is) = >>-ok (raise_if test repeated_text) (ok read) h2 in
      returned (λ xs. IsUnique xs) is (length-frozenset-IsUnique read (ground arith))

  pub parse_profiling-IsTargets :
      (version : ℕ) (benchmark : List CaseShapeConfig) (value : Json F) (p : ProfilingConfig)
      → parse_profiling version benchmark value ≡ ok p
      → IsTargets benchmark p
  unfolding parse_profiling
  parse_profiling-IsTargets version benchmark (object fs) p h =
      let (branch, _, h1) =
        >>=-eq-ok
          (profiling_branch version (first_query benchmark) (object fs) (keys (fields_of fs))) _
          h in
      let targets = union_sorted branch.branch_nsys branch.branch_ncu in
      let (inside, h2) = >>-ok (raise_if (not (subset targets benchmark)) not_benchmarked) _ h1 in
      let (captured, c, h3) =
        >>=-eq-ok (integer_at 1 branch.profiling_raw "captured_iterations") _ h2 in
      let (v, _, h4) = >>=-eq-ok (at branch.profiling_raw "ncu_metrics") _ h3 in
      let (metrics, m, h5) = >>=-eq-ok (unique_strings v) _ h4 in
      let (w, _, h6) = >>=-eq-ok (at branch.profiling_raw "ncu_sections") _ h5 in
      let (sections, s, h7) = >>=-eq-ok (unique_strings w) _ h6 in
      returned (λ p. IsTargets benchmark p) h7
        (record {
          united = union_sorted-contains branch.branch_nsys branch.branch_ncu;
          benchmarked = λ shape. subset-contains targets benchmark shape (ground arith);
          target_order = union_sorted-IsAscending branch.branch_nsys branch.branch_ncu;
          target_once = union_sorted-IsUnique branch.branch_nsys branch.branch_ncu;
          some_captured = integer_at-le 1 branch.profiling_raw "captured_iterations" captured c;
          metrics_once = unique_strings-IsUnique v metrics m;
          sections_once = unique_strings-IsUnique w sections s;
        })
  parse_profiling-IsTargets version benchmark null p h = ground arith
  parse_profiling-IsTargets version benchmark (boolean b) p h = ground arith
  parse_profiling-IsTargets version benchmark (integer n) p h = ground arith
  parse_profiling-IsTargets version benchmark (real x) p h = ground arith
  parse_profiling-IsTargets version benchmark (text s) p h = ground arith
  parse_profiling-IsTargets version benchmark (array xs) p h = ground arith
