-- ===== src/Kineto/Ids.antt =====
-- The loop over the stack finds the IDs of all CUDA calls below a range.
use fused_index_top_k.Base.{
  ℕ, zero, suc, ◌+◌, ◌≤◌, ◌≡◌, refl, Bool, false, ◌&&◌, ◌||◌, Option, none, some, List, [], ◌∷◌, Eq,
  ◌==◌, string_eq, nat_eq, contains, arith,
}
use fused_index_top_k.Kineto.{
  Attributes, Event, event, Events, no_events, child, cpu_children, is_cuda_runtime_activity,
  extend, size, size_all, add_some, add_id, collect_ids, correlated_cuda_ids,
}

abbrev is_id : {I : Type 0} ⦃i : Eq I⦄ → Option I → I → Bool
is_id none x = false
is_id (some id) x = id == x

contains-add_some :
    {I : Type 0} ⦃i : Eq I⦄ (id : Option I) (ids : List I) (x : I)
    → contains (add_some id ids) x ≡ (is_id id x || contains ids x)
contains-add_some none ids x = refl
contains-add_some ⦃i⦄ (some id) ids x = ground (arith, i.beq_iff id x)

module _ {I T : Type 0} ⦃i : Eq I⦄ where
  -- The reference: whether the tree below an event holds a CUDA call with an ID.
  unfoldable mutual
    pub launches : Event I T → I → Bool
    launches (event a children) x =
        (is_cuda_runtime_activity (event a children) && is_id a.id x) || launches_below children x

    pub launches_below : Events I T → I → Bool
    launches_below no_events x = false
    launches_below (child e es) x = launches e x || launches_below es x

  abbrev any_launches : List (Event I T) → I → Bool
  any_launches [] x = false
  any_launches (e ∷ stack) x = launches e x || any_launches stack x

  abbrev total : List (Event I T) → ℕ
  total [] = 0
  total (e ∷ stack) = size e + total stack

  any_launches-extend :
      (es : Events I T) (stack : List (Event I T)) (x : I)
      → any_launches (extend es stack) x ≡ (launches_below es x || any_launches stack x)
  unfolding launches_below
  any_launches-extend no_events stack x = refl
  any_launches-extend (child e es) stack x = ground (arith, any_launches-extend es (e ∷ stack) x)

  total-extend :
      (es : Events I T) (stack : List (Event I T))
      → total (extend es stack) ≡ size_all es + total stack
  unfolding size
  total-extend no_events stack = omega arith
  total-extend (child e es) stack = omega (arith, total-extend es (e ∷ stack))

  contains-add_id :
      (a : Attributes I T) (es : Events I T) (ids : List I) (x : I)
      → contains (add_id (event a es) ids) x
        ≡ ((is_cuda_runtime_activity (event a es) && is_id a.id x) || contains ids x)
  contains-add_id a es ids x = ground (arith, contains-add_some a.id ids x)

  contains-collect_ids :
      (fuel : ℕ) (stack : List (Event I T)) (ids : List I) (x : I)
      → total stack ≤ fuel
      → contains (collect_ids fuel stack ids) x ≡ (contains ids x || any_launches stack x)
  unfolding collect_ids size launches
  contains-collect_ids zero [] ids x le = ground arith
  contains-collect_ids zero (event a es ∷ stack) ids x le = absurd (omega arith)
  contains-collect_ids (suc fuel) [] ids x le = ground arith
  contains-collect_ids (suc fuel) (event a es ∷ stack) ids x le =
      let rest =
        contains-collect_ids fuel (extend es stack) (add_id (event a es) ids) x
          (omega (arith, total-extend es stack)) in
      ground (arith, rest, any_launches-extend es stack x, contains-add_id a es ids x)

  -- The IDs that `_correlated_cuda_ids` collects below a range are exactly those of the CUDA
  -- runtime and driver calls in the tree below it, at every depth: the loop over the stack ends,
  -- and agrees with the recursive reading of the tree.
  pub contains-correlated_cuda_ids :
      (root : Event I T) (x : I)
      → contains (correlated_cuda_ids root) x ≡ launches_below (cpu_children root) x
  unfolding correlated_cuda_ids size
  contains-correlated_cuda_ids (event a es) x =
      let all =
        contains-collect_ids (suc (size_all es)) (extend es []) [] x
          (omega (arith, total-extend es [])) in
      ground (arith, all, any_launches-extend es [] x)
