-- ===== src/Config/Contract.antt =====
-- The fields that the explicit contract fixes, whichever schema they are written in.
use fused_index_top_k.Base.{
  ℕ, ◌≡◌, refl, inl, inr, String, true, not, none, some, [], ◌∷◌, ℤ, leb, ◌==◌, string_eq, nat_eq,
  IsUnique, Dict, keys, get, put, ok, ◌>>◌, raise_if, >>=-eq-ok, arith, eq_iff, Bool-cases,
  Option-cases, eq_self, key_of_get, get-put,
}
use fused_index_top_k.Config.{
  Json, null, boolean, integer, real, text, array, object, Floats, broken_contract, shape_eq,
}
use fused_index_top_k.Config.Read.{at, read_string, string_at}
use fused_index_top_k.Graph.Validate.Parts.{>>-ok}
use fused_index_top_k.Config.Workload.{
  Expected, exactly, minus_one, explicit_contract, is_expected, json_of, check_contract,
  with_contract, resolve_contract, to_int,
}

-- The documented behaviour of `int` on the number that equals -1.
abbrev pub TruncatesMinusOne : {F : Type 0} → Floats F → Type 0
TruncatesMinusOne {F} fl = (x : F) → fl.is_minus_one x ≡ true → fl.truncate x ≡ ℤ.negsuc 0

module _ {F : Type 0} where
  -- The keys of the contract are replaced, the others kept.
  pub with_contract-get :
      (raw : Dict (Json F)) (contract : Dict Expected) (k : String)
      → IsUnique (keys contract)
      → get (with_contract raw contract) k
        ≡ elim (get contract k) [ none ↦ get raw k | some e ↦ some (json_of e) ]
  unfolding with_contract
  with_contract-get raw [] k u = refl
  with_contract-get raw ((key, expected) ∷ rest) k u =
      let ih = with_contract-get (put raw key (json_of expected)) rest k u.1 in
      let here = get-put raw key (json_of expected) k in
      elim (Option-cases (get rest k)) [
        | inl out ↦ ground (arith, ih, here, eq_iff key k)
        | inr (e, found) ↦ ground (arith, ih, key_of_get rest k e found, eq_iff key k)
      ]

explicit_contract-IsUnique : IsUnique (keys explicit_contract)
explicit_contract-IsUnique =
    (refl, (refl, (refl, (refl, (refl, (refl, (refl, (refl, (refl, (refl, tt))))))))))

module _ {F : Type 0} (fl : Floats F) where
  check_contract-get :
      (raw : Dict (Json F)) (contract : Dict Expected) (k : String) (expected : Expected)
      → check_contract fl raw contract ≡ ok tt
      → get contract k ≡ some expected
      → (v : Json F) × (get raw k ≡ some v) × (is_expected fl v expected ≡ true)
  unfolding check_contract at
  check_contract-get raw [] k expected h g = ground arith
  check_contract-get raw ((key, first) ∷ rest) k expected h g =
      let (v, found, h1) = >>=-eq-ok (at raw key) _ h in
      let test = not (is_expected fl v first) in
      let (same, h2) = >>-ok (raise_if test broken_contract) (check_contract fl raw rest) h1 in
      elim (Bool-cases (key == k)) [
        | inl here ↦ (v, ground (arith, found, eq_iff key k), ground (arith, same, g))
        | inr there ↦ check_contract-get raw rest k expected h2 (ground arith)
      ]

  is_expected-json_of : (e : Expected) → is_expected fl (json_of e) e ≡ true
  is_expected-json_of (exactly e) = eq_self e
  is_expected-json_of minus_one = refl

  -- Every field of the contract reads as the contract says.
  pub resolve_contract-get :
      (version : ℕ) (raw resolved : Dict (Json F)) (k : String) (expected : Expected)
      → resolve_contract fl version raw ≡ ok resolved
      → get explicit_contract k ≡ some expected
      → (v : Json F) × (get resolved k ≡ some v) × (is_expected fl v expected ≡ true)
  unfolding resolve_contract
  resolve_contract-get version raw resolved k expected h g = elim (Bool-cases (leb 2 version)) [
    | inl new ↦
        let read : (check_contract fl raw explicit_contract >> ok raw) ≡ ok resolved =
          ground arith in
        let (checked, is) = >>-ok (check_contract fl raw explicit_contract) (ok raw) read in
        let (v, found, same) = check_contract-get raw explicit_contract k expected checked g in
        (v, grind (arith, found, is), same)
    | inr old ↦
        let put_there = with_contract-get raw explicit_contract k explicit_contract-IsUnique in
        (json_of expected, grind (arith, put_there, g, h, old), is_expected-json_of expected)
  ]

  pub string_at-exactly :
      (resolved : Dict (Json F)) (k s e : String) (v : Json F)
      → get resolved k ≡ some v
      → is_expected fl v (exactly e) ≡ true
      → string_at resolved k ≡ ok s
      → s ≡ e
  unfolding at read_string
  string_at-exactly resolved k s e (text t) g same h = ground (arith, eq_iff t e)
  string_at-exactly resolved k s e null g same h = ground arith
  string_at-exactly resolved k s e (boolean b) g same h = ground arith
  string_at-exactly resolved k s e (integer n) g same h = ground arith
  string_at-exactly resolved k s e (real x) g same h = ground arith
  string_at-exactly resolved k s e (array xs) g same h = ground arith
  string_at-exactly resolved k s e (object fs) g same h = ground arith

  pub to_int_minus_one :
      (v : Json F) (n : ℤ)
      → TruncatesMinusOne fl
      → is_expected fl v minus_one ≡ true
      → to_int fl v ≡ ok n
      → n ≡ ℤ.negsuc 0
  unfolding to_int
  to_int_minus_one (integer (ℤ.negsuc k)) n law same h = ground arith
  to_int_minus_one (integer (ℤ.pos k)) n law same h = ground arith
  to_int_minus_one (real x) n law same h = ground (arith, law x same)
  to_int_minus_one (text t) n law same h = ground arith
  to_int_minus_one null n law same h = ground arith
  to_int_minus_one (boolean b) n law same h = ground arith
  to_int_minus_one (array xs) n law same h = ground arith
  to_int_minus_one (object fs) n law same h = ground arith
