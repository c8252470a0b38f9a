-- ===== src/Correctness/Oracle/TopK.antt =====
-- What `torch.topk` documents, and the cutoff that follows from it.
use fused_index_top_k.Base.{
  ℕ, zero, suc, ◌+◌, ◌-◌, ◌≤◌, ◌<◌, ◌≡◌, refl, min, Bool, false, List, [], ◌∷◌, ltb, if◌then◌else◌,
  length, get_or, take, countb, count_below, arith,
}
use fused_index_top_k.Correctness.Oracle.{score_of}

abbrev pub IsDescending : List ℕ → Type 0
IsDescending [] = Unit
IsDescending (x ∷ []) = Unit
IsDescending (x ∷ y ∷ rest) = (y ≤ x) × IsDescending (y ∷ rest)

-- The values come in descending order, and they are the largest: above any bound there are as
-- many of them as in the row, up to n.
pub record TopKLaws (topk : ℕ → List ℕ → List ℕ) : Type 0 where
  pub descending : (n : ℕ) (row : List ℕ) → IsDescending (topk n row)
  pub largest :
      (n : ℕ) (row : List ℕ) (bound : ℕ)
      → countb (λ score. ltb bound score) (topk n row)
        ≡ min n (countb (λ score. ltb bound score) row)

countb-take-le : (p : ℕ → Bool) (n : ℕ) (xs : List ℕ) → countb p (take n xs) ≤ countb p xs
countb-take-le p zero xs = omega arith
countb-take-le p (suc n) [] = omega arith
countb-take-le p (suc n) (x ∷ xs) = ground (arith, countb-take-le p n xs)

countb-take-le_count : (p : ℕ → Bool) (n : ℕ) (xs : List ℕ) → countb p (take n xs) ≤ n
countb-take-le_count p zero xs = omega arith
countb-take-le_count p (suc n) [] = omega arith
countb-take-le_count p (suc n) (x ∷ xs) = ground (arith, countb-take-le_count p n xs)

-- below the head of a descending list nothing exceeds it
none_above_head :
    (c x : ℕ) (xs : List ℕ)
    → IsDescending (x ∷ xs)
    → x ≤ c
    → countb (λ score. ltb c score) (x ∷ xs) ≡ 0
none_above_head c x [] d h = ground arith
none_above_head c x (y ∷ ys) d h = ground (arith, none_above_head c y ys d.1)

-- What exceeds the element at i stands before it.
count_above_elem :
    (xs : List ℕ) (i : ℕ)
    → IsDescending xs
    → countb (λ score. ltb (get_or xs i 0) score) xs
      ≡ countb (λ score. ltb (get_or xs i 0) score) (take i xs)
count_above_elem [] zero d = refl
count_above_elem [] (suc i) d = refl
count_above_elem (x ∷ xs) zero d = none_above_head x x xs d (omega arith)
count_above_elem (x ∷ []) (suc i) d = ground (arith, count_above_elem [] i tt)
count_above_elem (x ∷ y ∷ ys) (suc i) d = ground (arith, count_above_elem (y ∷ ys) i d.1)

take-le_step :
    (p : ℕ → Bool) (n : ℕ) (xs : List ℕ) → countb p (take n xs) ≤ countb p (take (suc n) xs)
take-le_step p zero xs = omega arith
take-le_step p (suc n) [] = omega arith
take-le_step p (suc n) (x ∷ xs) = ground (arith, take-le_step p n xs)

-- Before or after the element at i, the same values exceed it, and at most i do.
count_above_squeeze :
    (xs : List ℕ) (i : ℕ)
    → IsDescending xs
    → (countb (λ score. ltb (get_or xs i 0) score) (take (suc i) xs)
        ≡ countb (λ score. ltb (get_or xs i 0) score) xs)
      × (countb (λ score. ltb (get_or xs i 0) score) xs ≤ i)
count_above_squeeze xs i d =
    let above = λ (score : ℕ). ltb (get_or xs i 0) score in
    let same = count_above_elem xs i d in
    let step = take-le_step above i xs in
    let whole = countb-take-le above (suc i) xs in
    let few = countb-take-le_count above i xs in (omega arith, omega arith)

-- The values above the cutoff among the first k are all the scores above it in the row.
pub count_above_cutoff :
    (topk : ℕ → List ℕ → List ℕ) (laws : TopKLaws topk) (k : ℕ) (row : List ℕ)
    → 0 < k
    → countb (λ score. ltb (get_or (topk (suc k) row) (k - 1) 0) score) (take k (topk (suc k) row))
      ≡ countb (λ score. ltb (get_or (topk (suc k) row) (k - 1) 0) score) row
count_above_cutoff topk laws zero row h = elim h [ ]
count_above_cutoff topk laws (suc k) row h =
    let e : suc k - 1 ≡ k = omega arith in
    rw e (
      let top = topk (suc (suc k)) row in
      let squeeze = count_above_squeeze top k (laws.descending (suc (suc k)) row) in
      let same = squeeze.0 in
      let few = squeeze.1 in
      let largest = laws.largest (suc (suc k)) row (get_or top k 0) in omega arith)

count_below_front :
    (q : ℕ → Bool) (n : ℕ)
    → count_below q (suc n) ≡ (if q 0 then 1 else 0) + count_below (λ j. q (suc j)) n
count_below_front q zero = ground arith
count_below_front q (suc n) = ground (arith, count_below_front q n)

-- Counting in a row is counting its positions.
pub countb-eq-positions :
    (p : ℕ → Bool) (row : List ℕ)
    → countb p row ≡ count_below (λ j. p (score_of row j)) (length row)
countb-eq-positions p [] = refl
countb-eq-positions p (x ∷ row) = ground (
  arith,
  countb-eq-positions p row,
  count_below_front (λ j. p (score_of (x ∷ row) j)) (length row),
)

-- Where no later position passes, only the first n count.
pub count_below_tail :
    (q : ℕ → Bool) (n d : ℕ)
    → ((j : ℕ) → n ≤ j → q j ≡ false)
    → count_below q (n + d) ≡ count_below q n
count_below_tail q n zero h = let e : n + 0 ≡ n = omega arith in rw e
count_below_tail q n (suc d) h =
    let e : n + suc d ≡ suc (n + d) = omega arith in
    rw e (ground (arith, h (n + d) (omega arith), count_below_tail q n d h))
