-- ===== src/Base/Raising.antt =====
-- Code that raises: a result or an error, with the `do` notation.
use mathlib.Core.Path.{◌≡◌, refl, subst}
use mathlib.Core.Bool.{Bool, true, false}
use mathlib.Core.Option.{Option, none, some}

pub data Result (E A : Type 0) : Type 0 where
  ok : A → Result E A
  err : E → Result E A

infixl 5 ◌>>=◌ ◌>>◌
abbrev pub ◌>>=◌ : {E A B : Type 0} → Result E A → (A → Result E B) → Result E B
ok a >>= f = f a
err e >>= f = err e

-- `if test: raise e`
abbrev pub raise_if : {E : Type 0} → Bool → E → Result E (Unit {0})
raise_if true e = err e
raise_if false e = ok tt

-- `try: m` with the exception of one component passed on by another
abbrev pub map_err : {E F A : Type 0} → (E → F) → Result E A → Result F A
map_err f (ok a) = ok a
map_err f (err e) = err (f e)

-- A check whose value is not used.
abbrev pub ◌>>◌ : {E A : Type 0} → Result E (Unit {0}) → Result E A → Result E A
check >> rest = check >>= (λ u. rest)

-- A sequence that succeeds has succeeded in both of its parts.
pub >>=-eq-ok :
    {E A B : Type 0} (first : Result E A) (next : A → Result E B) {result : B}
    → (first >>= next) ≡ ok result
    → (value : A) × (first ≡ ok value) × (next value ≡ ok result)
>>=-eq-ok (err e) next h = cc
>>=-eq-ok (ok value) next h = (value, refl, h)

pub raise_if-eq-ok : {E : Type 0} (b : Bool) (e : E) → raise_if b e ≡ ok tt → b ≡ false
raise_if-eq-ok true e h = cc
raise_if-eq-ok false e h = refl

-- What holds of the value that was made holds of the value that was returned.
pub returned :
    {E A : Type 0} (P : A → Type 0) {a b : A} → ◌≡◌ {A = Result E A} (ok a) (ok b) → P a → P b
returned {E = E} {A = A} P h p =
    subst (λ (r : Result E A). elim r [ ok a ↦ P a | err e ↦ Unit {0} ]) h p

pub ok_eq : {E A : Type 0} (a b : A) → ◌≡◌ {A = Result E A} (ok a) (ok b) → a ≡ b
ok_eq a b h = returned (λ x. a ≡ x) h refl

pub some_eq : {A : Type 0} (a b : A) → ◌≡◌ {A = Option A} (some a) (some b) → a ≡ b
some_eq a b h = subst (λ o. elim o [ none ↦ Unit {0} | some x ↦ a ≡ x ]) h refl

pub none_is_some : {A : Type 0} (a : A) → ◌≡◌ {A = Option A} none (some a) → ⊥
none_is_some a h = subst (λ o. elim o [ none ↦ Unit {0} | some x ↦ ⊥ ]) h tt
