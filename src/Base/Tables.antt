-- ===== src/Base/Tables.antt =====
-- A Python `dict` with text keys, in insertion order.
use Prim.Native.String.{String}
use mathlib.Core.Path.{◌≡◌, refl}
use mathlib.Core.Bool.{false≢true, true, false}
use mathlib.Core.Logic.{inl, inr}
use mathlib.Core.Option.{Option, none, some}
use mathlib.Core.List.{List, [], ◌∷◌}
use native.Mathlib.Omega.{arith}
use text.Mathlib.TextEquality.{eq_iff}
use fused_index_top_k.Base.Tests.{Bool-cases, if◌then◌else◌, ◌==◌, string_eq}
use fused_index_top_k.Base.Sets.{contains, IsUnique}

abbrev pub Dict : Type 0 → Type 0
Dict V = List (String × V)

module _ {V : Type 0} where
  abbrev pub keys : Dict V → List String
  keys [] = []
  keys ((k, v) ∷ d) = k ∷ keys d

  -- `d.get(k)`
  abbrev pub get : Dict V → String → Option V
  get [] k = none
  get ((j, v) ∷ d) k = if j == k then some v else get d k

  -- `d[k] = v`
  abbrev pub put : Dict V → String → V → Dict V
  put [] k v = (k, v) ∷ []
  put ((j, w) ∷ d) k v = if j == k then (j, v) ∷ d else (j, w) ∷ put d k v

  pub contains-put :
      (d : Dict V) (k : String) (v : V) (j : String)
      → contains (keys (put d k v)) j ≡ (if k == j then true else contains (keys d) j)
  contains-put [] k v j = refl
  contains-put ((i, w) ∷ d) k v j =
      ground (arith, contains-put d k v j, eq_iff i k, eq_iff i j, eq_iff k j)

  pub put-IsUnique :
      (d : Dict V) (k : String) (v : V) → IsUnique (keys d) → IsUnique (keys (put d k v))
  put-IsUnique [] k v u = (refl, tt)
  put-IsUnique ((i, w) ∷ d) k v u =
      ground (arith, put-IsUnique d k v, contains-put d k v i, eq_iff i k, eq_iff k i)

  pub get-put :
      (d : Dict V) (k : String) (v : V) (j : String)
      → get (put d k v) j ≡ (if k == j then some v else get d j)
  get-put [] k v j = refl
  get-put ((i, w) ∷ d) k v j = ground (arith, get-put d k v j, eq_iff i k, eq_iff i j, eq_iff k j)

  pub get_of_key :
      (d : Dict V) (k : String) → contains (keys d) k ≡ true → (v : V) × (get d k ≡ some v)
  get_of_key [] k h = absurd (false≢true h)
  get_of_key ((j, w) ∷ d) k h = elim (Bool-cases (j == k)) [
    | inl e ↦ (w, rw e)
    | inr e ↦ rw e (get_of_key d k (rw e at h))
  ]

  pub key_of_get : (d : Dict V) (k : String) (v : V) → get d k ≡ some v → contains (keys d) k ≡ true
  key_of_get [] k v h = ground arith
  key_of_get ((j, w) ∷ d) k v h = ground (arith, key_of_get d k v)

  pub key_of_none : (d : Dict V) (k : String) → get d k ≡ none → contains (keys d) k ≡ false
  key_of_none [] k h = refl
  key_of_none ((j, w) ∷ d) k h = ground (arith, key_of_none d k)
