-- ===== src/Correctness/Oracle/Tied.antt =====
-- What the tie check accepts lies on the right sides of the cutoff.
use fused_index_top_k.Base.{
  ℕ, zero, suc, ◌+◌, ◌≤◌, ◌<◌, ◌≡◌, ap, Bool, true, false, not, ◌&&◌, List, [], ◌∷◌, eqb, nat_eq,
  eqb_iff, range, range_from, filterb, contains, contains-filterb, contains-frozenset, diff,
  frozenset, AllBelow, arith, ◌∙◌,
}
use fused_index_top_k.Correctness.{TieRow, tie_accepts, is_empty}
use fused_index_top_k.Correctness.Oracle.{score_of}
use fused_index_top_k.Correctness.Oracle.Views.{Separates}

is_empty-filterb :
    (p : ℕ → Bool) (xs : List ℕ) (i : ℕ)
    → is_empty (filterb p xs) ≡ true
    → contains xs i ≡ true
    → p i ≡ false
is_empty-filterb p [] i h m = ground arith
is_empty-filterb p (x ∷ xs) i h m = ground (arith, is_empty-filterb p xs i, eqb_iff x i)

contains-range_from :
    (n from i : ℕ) → contains (range_from from n) i ≡ true → (from ≤ i) × (i < from + n)
contains-range_from zero from i m = ground arith
contains-range_from (suc n) from i m =
    ground (arith, contains-range_from n (suc from) i, eqb_iff from i)

range_from-contains :
    (n from i : ℕ) → from ≤ i → i < from + n → contains (range_from from n) i ≡ true
range_from-contains zero from i h lt = absurd (omega arith)
range_from-contains (suc n) from i h lt =
    ground (arith, range_from-contains n (suc from) i, eqb_iff from i)

pub AllBelow-contains : (n : ℕ) (xs : List ℕ) (i : ℕ) → AllBelow n xs → contains xs i ≡ true → i < n
AllBelow-contains n [] i b m = ground arith
AllBelow-contains n (x ∷ xs) i b m = ground (arith, AllBelow-contains n xs i, eqb_iff x i)

-- A row that the tie check accepts lies on the right sides of the cutoff.
pub tie_accepts-Separates :
    (c end : ℕ) (scores actual expected : List ℕ) (tie : TieRow)
    → tie.boundary_ids ≡ filterb (λ id. eqb (score_of scores id) c) (range end)
    → tie_accepts tie (frozenset actual) (frozenset expected) ≡ true
    → Separates c end scores expected
    → Separates c end scores actual
unfolding tie_accepts
tie_accepts-Separates c end scores actual expected tie e h s = record {
  at_least = low;
  all_above = high;
}
  where
    boundary : List ℕ
    boundary = frozenset tie.boundary_ids

    mandatory : List ℕ
    mandatory = diff (frozenset expected) boundary

    on_boundary :
        (i : ℕ) → contains boundary i ≡ (contains (range end) i && eqb (score_of scores i) c)
    on_boundary i =
        contains-frozenset tie.boundary_ids i
        ∙ ap (λ ids. contains ids i) e
        ∙ contains-filterb (λ id. eqb (score_of scores id) c) (range end) i

    in_mandatory :
        (i : ℕ) → contains mandatory i ≡ (contains expected i && not (contains boundary i))
    in_mandatory i =
        contains-filterb (λ x. not (contains boundary x)) (frozenset expected) i
        ∙ ap (λ b. b && not (contains boundary i)) (contains-frozenset expected i)

    missing : is_empty (diff mandatory (frozenset actual)) ≡ true
    missing = ground arith

    below : is_empty (diff (diff (frozenset actual) mandatory) boundary) ≡ true
    below = ground arith

    low : (i : ℕ) → contains actual i ≡ true → c ≤ score_of scores i
    low i m = ground (
      arith,
      on_boundary i,
      in_mandatory i,
      s.at_least i,
      contains-frozenset actual i,
      contains-filterb (λ x. not (contains mandatory x)) (frozenset actual) i,
      is_empty-filterb (λ x. not (contains boundary x)) (diff (frozenset actual) mandatory) i below,
    )

    high : (j : ℕ) → j < end → c < score_of scores j → contains actual j ≡ true
    high j lt above = ground (
      arith,
      on_boundary j,
      in_mandatory j,
      s.all_above j lt above,
      contains-frozenset actual j,
      is_empty-filterb (λ x. not (contains (frozenset actual) x)) mandatory j missing,
    )
