-- ===== src/Graph/Topological/Placing.antt =====
-- The invariant of the `while ready` loop, and what the loop returns.
use fused_index_top_k.Api.{StageSpec}
use fused_index_top_k.Base.{
  ℕ, zero, suc, ◌+◌, ◌-◌, ◌≤◌, ◌<◌, String, ◌≡◌, refl, true, false, ◌&&◌, ◌||◌, List, [], ◌∷◌, ◌++◌,
  leb, ◌==◌, some, string_eq, eq_iff, contains, countb, contains-append, countb-sorted, IsUnique,
  IsUnique-snoc, sorted, length, length-append, length-le_of_unique, arith, ap,
}
use fused_index_top_k.Graph.{str_leb}
use fused_index_top_k.Graph.Topological.{Progress, release, place}
use fused_index_top_k.Graph.Topological.Counting.{edges, pending, pending-snoc, pending_zero}
use fused_index_top_k.Graph.Topological.Release.{
  indegree-release, ready-release, IsReady, release-IsReady,
}

-- Each name stands after every stage that it depends on; `seen` stands before them all.
abbrev pub IsOrdered : List StageSpec → List String → List String → Type 0
IsOrdered specs seen [] = Unit
IsOrdered specs seen (name ∷ names) =
    ((d : String) → 0 < edges specs name d → contains seen d ≡ true)
    × IsOrdered specs (seen ++ name ∷ []) names

pub IsOrdered-snoc :
    (specs : List StageSpec) (seen names : List String) (name : String)
    → IsOrdered specs seen names
    → ((d : String) → 0 < edges specs name d → (contains seen d || contains names d) ≡ true)
    → IsOrdered specs seen (names ++ name ∷ [])
IsOrdered-snoc specs seen [] name o h = (λ d e. ground (arith, h d e), tt)
IsOrdered-snoc specs seen (x ∷ names) name o h = (
  o.0,
  IsOrdered-snoc specs (seen ++ x ∷ []) names name o.1
      (λ d e. ground (arith, h d e, contains-append seen (x ∷ []) d)),
)

module _ (names : List String) (specs : List StageSpec) (children : String → List String)
    (counted : (d c : String) → countb (λ x. x == c) (children d) ≡ edges specs c d)
    (covered : (c d : String) → 0 < edges specs c d → contains names c ≡ true) where
  -- What holds whenever the loop tests `ready`.
  pub record Inv (p : Progress) (ordered : List String) : Type 0 where
    pub counts : (c : String) → p.indegree c ≡ pending specs ordered c
    pub is_ready : IsReady p
    pub ready_known : (c : String) → contains p.ready c ≡ true → contains names c ≡ true
    pub placed_known : (c : String) → contains ordered c ≡ true → contains names c ≡ true
    pub placed_zero : (c : String) → contains ordered c ≡ true → p.indegree c ≡ 0
    pub apart : (c : String) → contains p.ready c ≡ true → contains ordered c ≡ false
    pub complete :
        (c : String)
        → contains names c ≡ true
        → p.indegree c ≡ 0
        → (contains ordered c || contains p.ready c) ≡ true
    pub unique : IsUnique ordered
    pub in_order : IsOrdered specs [] ordered

  -- What the loop returns: distinct known names in dependency order, and with every name all of
  -- whose dependencies are placed.
  pub record IsPlacement (ordered : List String) : Type 0 where
    pub known : (c : String) → contains ordered c ≡ true → contains names c ≡ true
    pub unique : IsUnique ordered
    pub in_order : IsOrdered specs [] ordered
    pub closed :
        (c : String)
        → contains names c ≡ true
        → pending specs ordered c ≡ 0
        → contains ordered c ≡ true

  module _ (p : Progress) (name : String) (rest ordered : List String) where
    abbrev after : Progress
    after = release (sorted str_leb (children name)) (record p { ready = rest })

    abbrev head_first : Progress
    head_first = record p { ready = name ∷ rest }

    count_sorted :
        (c : String) → countb (λ x. x == c) (sorted str_leb (children name)) ≡ edges specs c name
    count_sorted c =
        omega (arith, countb-sorted str_leb (λ x. x == c) (children name), counted name c)

    degree_after : (c : String) → after.indegree c ≡ p.indegree c - edges specs c name
    degree_after c = ground (
      arith,
      indegree-release (sorted str_leb (children name)) (record p { ready = rest }) c,
      count_sorted c,
    )

    ready_after :
        (c : String)
        → contains after.ready c
          ≡ (contains rest c || (leb 1 (p.indegree c) && leb (p.indegree c) (edges specs c name)))
    ready_after c = ground (
      arith,
      ready-release (sorted str_leb (children name)) (record p { ready = rest }) c,
      count_sorted c,
    )

    -- Placing the first ready stage and releasing its children keeps the invariant.
    Inv-step : Inv head_first ordered → Inv after (ordered ++ name ∷ [])
    Inv-step h =
        let first = h.ready_known name (ground (arith, eq_iff name name)) in
        let zero_here = h.is_ready.zero_degree name (ground (arith, eq_iff name name)) in
        let out = h.apart name (ground (arith, eq_iff name name)) in
        let alone = h.is_ready.unique.0 in
        record {
          counts =
              λ c. omega (arith, degree_after c, h.counts c, pending-snoc specs ordered name c out);
          is_ready =
              release-IsReady (sorted str_leb (children name)) (record p { ready = rest })
                (record {
                  unique = h.is_ready.unique.1;
                  zero_degree = λ c m. h.is_ready.zero_degree c (ground arith);
                });
          ready_known = λ c m. ground (arith, ready_after c, h.ready_known c, covered c name);
          placed_known = λ c m.
              ground
                (arith, contains-append ordered (name ∷ []) c, h.placed_known c, eq_iff name c);
          placed_zero = λ c m. ground (
            arith,
            degree_after c,
            contains-append ordered (name ∷ []) c,
            h.placed_zero c,
            eq_iff name c,
          );
          apart = λ c m. ground (
            arith,
            ready_after c,
            contains-append ordered (name ∷ []) c,
            h.apart c,
            h.placed_zero c,
            eq_iff name c,
          );
          complete = λ c m z. ground (
            arith,
            degree_after c,
            ready_after c,
            contains-append ordered (name ∷ []) c,
            h.complete c,
          );
          unique = IsUnique-snoc ordered name h.unique out;
          in_order =
              IsOrdered-snoc specs [] ordered name h.in_order
                (λ d e. pending_zero specs ordered name d (omega (arith, h.counts name)) e);
        }

  Inv-done :
      (p : Progress) (ordered : List String) → p.ready ≡ [] → Inv p ordered → IsPlacement ordered
  Inv-done p ordered e h = record {
    known = h.placed_known;
    unique = h.unique;
    in_order = h.in_order;
    closed = λ c m z. ground (arith, h.complete c, h.counts c, ap (λ ready. contains ready c) e);
  }

  -- The ready stages and the placed ones are distinct names, so a ready stage leaves room.
  room :
      (p : Progress) (name : String) (rest ordered : List String)
      → Inv (record p { ready = name ∷ rest }) ordered
      → suc (length ordered) ≤ length names
  room p name rest ordered h =
      length-le_of_unique (name ∷ ordered) names
        (h.apart name (ground (arith, eq_iff name name)), h.unique)
        (λ c m. ground (
          arith,
          h.placed_known c,
          h.ready_known name (ground (arith, eq_iff name name)),
          eq_iff name c,
        ))

  -- As many rounds as there are names are enough.
  pub place-IsPlacement :
      (fuel : ℕ) (indegree : String → ℕ) (ready ordered : List String)
      → length names ≤ length ordered + fuel
      → Inv (record { indegree = indegree; ready = ready }) ordered
      → (l : List String) × (place fuel children
            (record { indegree = indegree; ready = ready })
            ordered
          ≡ some l)
        × IsPlacement l
  unfolding place
  place-IsPlacement zero indegree [] ordered f h = (ordered, refl, Inv-done _ ordered refl h)
  place-IsPlacement zero indegree (name ∷ rest) ordered f h =
      absurd (omega (arith, room (record { indegree = indegree; ready = [] }) name rest ordered h))
  place-IsPlacement (suc fuel) indegree [] ordered f h = (ordered, refl, Inv-done _ ordered refl h)
  place-IsPlacement (suc fuel) indegree (name ∷ rest) ordered f h =
      let p : Progress = record { indegree = indegree; ready = [] } in
      place-IsPlacement fuel (after p name rest ordered).indegree (after p name rest ordered).ready
        (ordered ++ name ∷ []) (omega (arith, length-append ordered (name ∷ [])))
        (Inv-step p name rest ordered h)
