-- ===== src/Samples/Sorting.antt =====
-- An insertion sort keeps the laws that the comparison relies on.
use fused_index_top_k.Base.{
  ℕ, zero, suc, ◌≤◌, min, ◌≡◌, refl, Bool, List, [], ◌∷◌, ltb, leb, take, countb, insert_sorted,
  sorted, countb-sorted, arith,
}
use fused_index_top_k.Correctness.Tensor.Rows.{IsAscending, SortLaws}
use fused_index_top_k.Correctness.Oracle.TopK.{IsDescending, TopKLaws}

abbrev pub sort : List ℕ → List ℕ
sort = sorted leb

abbrev pub geb : ℕ → ℕ → Bool
geb a b = leb b a

abbrev pub topk : ℕ → List ℕ → List ℕ
topk n row = take n (sorted geb row)

insert-IsAscending : (a : ℕ) (xs : List ℕ) → IsAscending xs → IsAscending (insert_sorted leb a xs)
unfolding insert_sorted
insert-IsAscending a [] h = tt
insert-IsAscending a (x ∷ []) h = ground arith
insert-IsAscending a (x ∷ y ∷ xs) h = ground (arith, insert-IsAscending a (y ∷ xs) h.1)

sort-IsAscending : (xs : List ℕ) → IsAscending (sort xs)
unfolding sorted
sort-IsAscending [] = tt
sort-IsAscending (x ∷ xs) = insert-IsAscending x (sort xs) (sort-IsAscending xs)

insert-IsDescending :
    (a : ℕ) (xs : List ℕ) → IsDescending xs → IsDescending (insert_sorted geb a xs)
unfolding insert_sorted
insert-IsDescending a [] h = tt
insert-IsDescending a (x ∷ []) h = ground arith
insert-IsDescending a (x ∷ y ∷ xs) h = ground (arith, insert-IsDescending a (y ∷ xs) h.1)

sorted-IsDescending : (xs : List ℕ) → IsDescending (sorted geb xs)
unfolding sorted
sorted-IsDescending [] = tt
sorted-IsDescending (x ∷ xs) = insert-IsDescending x (sorted geb xs) (sorted-IsDescending xs)

take-IsDescending : (n : ℕ) (xs : List ℕ) → IsDescending xs → IsDescending (take n xs)
take-IsDescending zero xs h = tt
take-IsDescending (suc n) [] h = tt
take-IsDescending (suc zero) (x ∷ xs) h = tt
take-IsDescending (suc (suc n)) (x ∷ []) h = tt
take-IsDescending (suc (suc n)) (x ∷ y ∷ xs) h = (h.0, take-IsDescending (suc n) (y ∷ xs) h.1)

none_above :
    (bound x : ℕ) (xs : List ℕ)
    → IsDescending (x ∷ xs)
    → x ≤ bound
    → countb (λ score. ltb bound score) xs ≡ 0
none_above bound x [] d h = refl
none_above bound x (y ∷ ys) d h = ground (arith, none_above bound y ys d.1)

countb-take :
    (bound n : ℕ) (xs : List ℕ)
    → IsDescending xs
    → countb (λ score. ltb bound score) (take n xs) ≡ min n (countb (λ score. ltb bound score) xs)
countb-take bound zero xs d = omega arith
countb-take bound (suc n) [] d = omega arith
countb-take bound (suc n) (x ∷ []) d = ground (arith, countb-take bound n [] tt)
countb-take bound (suc n) (x ∷ y ∷ xs) d =
    ground (arith, countb-take bound n (y ∷ xs) d.1, none_above bound x (y ∷ xs) d)

pub sort-SortLaws : SortLaws sort
sort-SortLaws = record { ascending = sort-IsAscending; keeps = countb-sorted leb }

pub topk-TopKLaws : TopKLaws topk
topk-TopKLaws = record {
  descending = λ n row. take-IsDescending n (sorted geb row) (sorted-IsDescending row);
  largest = λ n row bound. ground (
    arith,
    countb-take bound n (sorted geb row) (sorted-IsDescending row),
    countb-sorted geb (λ score. ltb bound score) row,
  );
}
