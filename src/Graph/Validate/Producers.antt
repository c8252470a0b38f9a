-- ===== src/Graph/Validate/Producers.antt =====
-- The artifacts that the stages declare: `declared_producers` in `validate_graph`.
use fused_index_top_k.Api.{StageNode}
use fused_index_top_k.Base.{
  String, ◌≡◌, refl, subst, true, false, some, List, [], ◌∷◌, ◌++◌, contains, contains-append,
  IsUnique, get-put, contains-put, string_eq, eq_iff, ◌==◌, Dict, keys, get, put, ok, >>=-eq-ok,
  arith, Bool-cases, ◌⊎◌, inl, inr, Member,
}
use fused_index_top_k.Graph.Validate.{declare_produced, declare_all}
use fused_index_top_k.Graph.Validate.Parts.{produced, declare_produced-keys}

IsUnique-append :
    (xs ys : List String)
    → IsUnique xs
    → IsUnique ys
    → ((a : String) → contains xs a ≡ true → contains ys a ≡ false)
    → IsUnique (xs ++ ys)
IsUnique-append [] ys u v h = v
IsUnique-append (x ∷ xs) ys u v h = (
  ground (arith, contains-append xs ys x, h x, eq_iff x x, u.0),
  IsUnique-append xs ys u.1 v (λ a m. h a (ground arith)),
)

-- The artifacts of one stage are new, and each one is declared once.
declare_produced-fresh :
    (initial : List String) (stage : String) (artifacts : List String)
    → (before after : Dict String) → declare_produced initial stage artifacts before ≡ ok after
    → IsUnique artifacts
      × ((a : String)
          → contains artifacts a ≡ true
          → (contains (keys before) a ≡ false) × (contains initial a ≡ false))
unfolding declare_produced
declare_produced-fresh initial stage [] before after h = (tt, λ a m. ground arith)
declare_produced-fresh initial stage (x ∷ artifacts) before after h =
    let (unique, fresh) =
      declare_produced-fresh initial stage artifacts (put before x stage) after (ground arith) in
    (
      (ground (arith, fresh x, contains-put before x stage x, eq_iff x x), unique),
      λ a m. elim (Bool-cases (x == a)) [
        | inl e ↦
            subst (λ z. (contains (keys before) z ≡ false) × (contains initial z ≡ false))
              ((eq_iff x a).0 e) (ground arith, ground arith)
        | inr e ↦
            (ground (arith, fresh a, contains-put before x stage a), (fresh a (ground arith)).1)
      ],
    )

declare_produced-owner :
    (initial : List String) (stage : String) (artifacts : List String)
    → (before after : Dict String) (a owner : String)
    → declare_produced initial stage artifacts before ≡ ok after
    → get after a ≡ some owner
    → (get before a ≡ some owner) ⊎ ((stage ≡ owner) × (contains artifacts a ≡ true))
unfolding declare_produced
declare_produced-owner initial stage [] before after a owner h g = inl (ground arith)
declare_produced-owner initial stage (x ∷ artifacts) before after a owner h g =
    elim (declare_produced-owner initial stage artifacts (put before x stage) after a owner
      (ground arith) g) [
        | inl e ↦ elim (Bool-cases (x == a)) [
          | inl here ↦ inr (ground (arith, get-put before x stage a), ground arith)
          | inr there ↦ inl (ground (arith, get-put before x stage a))
        ]
        | inr (same, m) ↦ inr (same, ground arith)
      ]

module _ {V : Type 0} where
  pub declare_all-fresh :
      (initial : List String) (nodes : List (StageNode V)) (before after : Dict String)
      → declare_all initial nodes before ≡ ok after
      → IsUnique (produced nodes)
        × ((a : String)
            → contains (produced nodes) a ≡ true
            → (contains (keys before) a ≡ false) × (contains initial a ≡ false))
  unfolding declare_all
  declare_all-fresh initial [] before after h = (tt, λ a m. ground arith)
  declare_all-fresh initial (node ∷ nodes) before after h =
      let id = node.spec.stage_id in
      let made = node.spec.produces in
      let (middle, first, rest) = >>=-eq-ok (declare_produced initial id made before) _ h in
      let (unique, fresh) = declare_produced-fresh initial id made before middle first in
      let (unique', fresh') = declare_all-fresh initial nodes middle after rest in
      let middle_keys =
        λ (a : String). declare_produced-keys initial id made before middle a first in
      (
        IsUnique-append made (produced nodes) unique unique' (λ a m.
            elim (Bool-cases (contains (produced nodes) a)) [
              | inl twice ↦ ground (arith, middle_keys a, fresh' a twice)
              | inr once ↦ once
            ]),
        λ a m. elim (Bool-cases (contains made a)) [
          | inl here ↦ fresh a here
          | inr later ↦
              let (x, y) = fresh' a (ground (arith, contains-append made (produced nodes) a)) in
              (ground (arith, middle_keys a), y)
        ],
      )

  pub declare_all-owner :
      (initial : List String) (nodes : List (StageNode V)) (before after : Dict String)
      → (a owner : String) → declare_all initial nodes before ≡ ok after
      → get after a ≡ some owner
      → (get before a ≡ some owner)
        ⊎ ((node : StageNode V) × Member node nodes
            × (node.spec.stage_id ≡ owner)
            × (contains node.spec.produces a ≡ true))
  unfolding declare_all
  declare_all-owner initial [] before after a owner h g = inl (ground arith)
  declare_all-owner initial (node ∷ nodes) before after a owner h g =
      let id = node.spec.stage_id in
      let made = node.spec.produces in
      let (middle, first, rest) = >>=-eq-ok (declare_produced initial id made before) _ h in
      elim (declare_all-owner initial nodes middle after a owner rest g) [
        | inl e ↦ elim (declare_produced-owner initial id made before middle a owner first e) [
          | inl old ↦ inl old
          | inr (same, m) ↦ inr (node, inl refl, same, m)
        ]
        | inr (n, m, same, k) ↦ inr (n, inr m, same, k)
      ]
