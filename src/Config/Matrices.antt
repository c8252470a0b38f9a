-- ===== src/Config/Matrices.antt =====
-- The two case matrices of a workload, whichever schema they are written in.
use fused_index_top_k.Base.{
  ℕ, ◌≤◌, min, ◌≡◌, refl, ◌∙◌, inl, inr, false, List, [], ◌∷◌, ◌++◌, ltb, leb, string_eq, nat_eq,
  length, contains, IsUnique, Dict, ok, raise_if, >>=-eq-ok, raise_if-eq-ok, arith, Bool-cases,
}
use fused_index_top_k.Config.{Json, lengths_below_query, CaseShapeConfig, shape_eq, shape_leb}
use fused_index_top_k.Config.Read.{
  at, read_integer, ordered_unique_ints, ordered_unique_case_shapes,
}
use fused_index_top_k.Graph.Validate.Parts.{>>-ok}
use fused_index_top_k.Config.Ordered.{AllAbove, IsAscending}
use fused_index_top_k.Config.Workload.{
  min_of, shapes, TwoMatrices, read_matrices, read_lengths, read_cases,
}
use fused_index_top_k.Config.Readers.{
  IsCaseShape, All, IsMatrix, AreLengths, read_integer-le, ordered_unique_case_shapes-IsMatrix,
  ordered_unique_ints-AreLengths,
}

All-weaken : (xs : List ℕ) (m k : ℕ) → k ≤ m → All (λ x. m ≤ x) xs → All (λ x. k ≤ x) xs
All-weaken [] m k le all = tt
All-weaken (x ∷ xs) m k le all = (omega (arith, all.0), All-weaken xs m k le all.1)

min_of-le : (xs : List ℕ) → All (λ x. min_of xs ≤ x) xs
min_of-le [] = tt
min_of-le (x ∷ []) = (omega arith, tt)
min_of-le (x ∷ y ∷ xs) =
    let rest = min_of (y ∷ xs) in
    (omega arith, All-weaken (y ∷ xs) rest (min x rest) (omega arith) (min_of-le (y ∷ xs)))

pub All-above : (xs : List ℕ) (k : ℕ) → ltb (min_of xs) k ≡ false → All (λ x. k ≤ x) xs
All-above xs k h = All-weaken xs (min_of xs) k (ground arith) (min_of-le xs)

pub All-append :
    {A : Type 0} (P : A → Type 0) (xs ys : List A) → All P (xs ++ ys) → All P xs × All P ys
All-append P [] ys all = (tt, all)
All-append P (x ∷ xs) ys all =
    let (front, back) = All-append P xs ys all.1 in ((all.0, front), back)

module _ (q : ℕ) where
  shape : ℕ → CaseShapeConfig
  shape n = record { query_tokens = q; context_tokens = n }

  contains-shapes :
      (xs : List ℕ) (n : ℕ)
      → contains (shapes q xs) (record { query_tokens = q; context_tokens = n }) ≡ contains xs n
  contains-shapes [] n = refl
  contains-shapes (x ∷ xs) n = ground (arith, contains-shapes xs n)

  shapes-IsUnique : (xs : List ℕ) → IsUnique xs → IsUnique (shapes q xs)
  shapes-IsUnique [] u = tt
  shapes-IsUnique (x ∷ xs) u = (contains-shapes xs x ∙ u.0, shapes-IsUnique xs u.1)

  shapes-AllAbove :
      (x : ℕ) (xs : List ℕ)
      → AllAbove leb x xs
      → AllAbove shape_leb (record { query_tokens = q; context_tokens = x }) (shapes q xs)
  shapes-AllAbove x [] h = tt
  shapes-AllAbove x (y ∷ ys) h = (ground (arith, h.0), shapes-AllAbove x ys h.1)

  shapes-IsAscending : (xs : List ℕ) → IsAscending leb xs → IsAscending shape_leb (shapes q xs)
  shapes-IsAscending [] h = tt
  shapes-IsAscending (x ∷ xs) h = (shapes-AllAbove x xs h.0, shapes-IsAscending xs h.1)

  shapes-IsCaseShape : (xs : List ℕ) → 1 ≤ q → All (λ x. q ≤ x) xs → All IsCaseShape (shapes q xs)
  shapes-IsCaseShape [] p all = tt
  shapes-IsCaseShape (x ∷ xs) p all = ((p, all.0), shapes-IsCaseShape xs p all.1)

  length-shapes : (xs : List ℕ) → length (shapes q xs) ≡ length xs
  length-shapes [] = refl
  length-shapes (x ∷ xs) = omega (arith, length-shapes xs)

  -- Increasing lengths that hold the queries are a matrix.
  pub shapes-IsMatrix :
      (xs : List ℕ) → AreLengths xs → 1 ≤ q → All (λ x. q ≤ x) xs → IsMatrix (shapes q xs)
  shapes-IsMatrix xs lengths p all = record {
    some_case = omega (arith, length-shapes xs, lengths.some_length);
    case_shapes = shapes-IsCaseShape xs p all;
    ascending = shapes-IsAscending xs lengths.ascending_lengths;
    unique = shapes-IsUnique xs lengths.unique_lengths;
  }

module _ {F : Type 0} where
  read_matrices-IsMatrix :
      (raw : Dict (Json F)) (cases : TwoMatrices)
      → read_matrices raw ≡ ok cases
      → IsMatrix cases.0 × IsMatrix cases.1
  unfolding read_matrices
  read_matrices-IsMatrix raw cases h =
      let (v, _, h1) = >>=-eq-ok (at raw "benchmark_cases") _ h in
      let (benchmark, b, h2) = >>=-eq-ok (ordered_unique_case_shapes v) _ h1 in
      let (w, _, h3) = >>=-eq-ok (at raw "correctness_cases") _ h2 in
      let (correctness, c, h4) = >>=-eq-ok (ordered_unique_case_shapes w) _ h3 in
      let first = ordered_unique_case_shapes-IsMatrix v benchmark b in
      let second = ordered_unique_case_shapes-IsMatrix w correctness c in
      grind (arith, first, second, h4)

  read_lengths-IsMatrix :
      (raw : Dict (Json F)) (cases : TwoMatrices)
      → read_lengths raw ≡ ok cases
      → IsMatrix cases.0 × IsMatrix cases.1
  unfolding read_lengths
  read_lengths-IsMatrix raw cases h =
      let (v, _, h1) = >>=-eq-ok (at raw "context_lengths") _ h in
      let (xs, b, h2) = >>=-eq-ok (ordered_unique_ints v) _ h1 in
      let (w, _, h3) = >>=-eq-ok (at raw "correctness_lengths") _ h2 in
      let (ys, c, h4) = >>=-eq-ok (ordered_unique_ints w) _ h3 in
      let (r, _, h5) = >>=-eq-ok (at raw "query_tokens") _ h4 in
      let (q, one, h6) = >>=-eq-ok (read_integer 1 r) _ h5 in
      let test = ltb (min_of (xs ++ ys)) q in
      let (fits, is) =
        >>-ok (raise_if test lengths_below_query) (ok (shapes q xs, shapes q ys)) h6 in
      let (front, back) =
        All-append (λ x. q ≤ x) xs ys
          (All-above (xs ++ ys) q (raise_if-eq-ok test lengths_below_query fits)) in
      let p = read_integer-le 1 r q one in
      let first = shapes-IsMatrix q xs (ordered_unique_ints-AreLengths v xs b) p front in
      let second = shapes-IsMatrix q ys (ordered_unique_ints-AreLengths w ys c) p back in
      grind (arith, first, second, is)

  pub read_cases-IsMatrix :
      (version : ℕ) (raw : Dict (Json F)) (cases : TwoMatrices)
      → read_cases version raw ≡ ok cases
      → IsMatrix cases.0 × IsMatrix cases.1
  unfolding read_cases
  read_cases-IsMatrix version raw cases h = elim (Bool-cases (leb 3 version)) [
    | inl new ↦ read_matrices-IsMatrix raw cases (ground arith)
    | inr old ↦ read_lengths-IsMatrix raw cases (ground arith)
  ]
