-- ===== src/Graph/Topological/Names.antt =====
-- The topological order of the stage names: sound, and complete for graphs without a cycle.
use fused_index_top_k.Api.{StageSpec}
use fused_index_top_k.Base.{
  ℕ, zero, suc, ◌<◌, String, ◌≡◌, refl, true, ◌&&◌, List, [], ◌∷◌, eqb, ◌==◌, some, string_eq,
  eq_iff, contains, countb, contains-sorted, contains-filterb, filterb, sorted-IsUnique,
  filterb-IsUnique, IsUnique, length, length-le_of_unique, contains_of_length, ok, >>=-eq-ok, arith,
  subst,
}
use fused_index_top_k.Graph.{str_leb}
use fused_index_top_k.Graph.Topological.{
  Edges, no_edges, add_edge, add_dependencies, add_stages, initially_ready, place,
  topological_names,
}
use fused_index_top_k.Graph.Topological.Counting.{edges, pending_of_done, Counts, add_stages-Counts}
use fused_index_top_k.Graph.Topological.Placing.{IsOrdered, Inv, IsPlacement, place-IsPlacement}

-- A topological order of the names: each once, and each behind all that it depends on.
pub record IsTopological (names : List String) (specs : List StageSpec) (l : List String)
    : Type 0 where
  pub unique : IsUnique l
  pub same : (c : String) → contains l c ≡ contains names c
  pub in_order : IsOrdered specs [] l

module _ (names : List String) (specs : List StageSpec) (distinct : IsUnique names)
    (covered : (c d : String) → 0 < edges specs c d → contains names c ≡ true) where
  start_contains :
      (g : Edges) (c : String)
      → contains (initially_ready names g) c ≡ (contains names c && eqb (g.indegree c) 0)
  start_contains g c = ground (
    arith,
    contains-sorted str_leb (filterb (λ name. eqb (g.indegree name) 0) names) c,
    contains-filterb (λ name. eqb (g.indegree name) 0) names c,
  )

  module _ (g : Edges) (added : Counts specs no_edges g) where
    counted : (d c : String) → countb (λ x. x == c) (g.children d) ≡ edges specs c d
    counted d c = omega (arith, added.children d c)

    start-Inv :
        Inv names specs g.children counted covered
          (record { indegree = g.indegree; ready = initially_ready names g })
          []
    start-Inv = record {
      counts = λ c. omega (arith, added.degrees c);
      is_ready = record {
        unique =
            sorted-IsUnique str_leb _
              (filterb-IsUnique (λ name. eqb (g.indegree name) 0) names distinct);
        zero_degree = λ c m. ground (arith, start_contains g c);
      };
      ready_known = λ c m. ground (arith, start_contains g c);
      placed_known = λ c m. ground arith;
      placed_zero = λ c m. ground arith;
      apart = λ c m. refl;
      complete = λ c m z. ground (arith, start_contains g c);
      unique = tt;
      in_order = tt;
    }

    -- The loop ends with a placement, within its fuel.
    placement :
        (l : List String) × (place
            (length names)
            g.children
            (record { indegree = g.indegree; ready = initially_ready names g })
            []
          ≡ some l)
        × IsPlacement names specs g.children counted covered l
    placement =
        place-IsPlacement names specs g.children counted covered (length names) g.indegree
          (initially_ready names g) [] (omega arith) start-Inv

  -- A returned order is topological.
  pub topological_names-IsTopological :
      (l : List String) → topological_names names specs ≡ ok l → IsTopological names specs l
  unfolding topological_names
  topological_names-IsTopological l h =
      let (g, built, h1) = >>=-eq-ok (add_stages names specs no_edges) _ h in
      let added = add_stages-Counts names specs no_edges g built in
      let (placed, found, p) = placement g added in
      let full : length placed ≡ length names = ground arith in
      let eq : placed ≡ l = ground arith in
      subst (IsTopological names specs) eq (record {
        unique = p.unique;
        same = λ c.
            ground
              (arith, p.known c, contains_of_length placed names p.unique p.known (omega arith) c);
        in_order = p.in_order;
      })

  -- If all dependencies are known and some rank falls along them, an order is found.
  pub topological_names_total :
      (rank : String → ℕ)
      → ((c d : String) → 0 < edges specs c d → contains names d ≡ true)
      → ((c d : String) → 0 < edges specs c d → rank d < rank c)
      → (g : Edges) → add_stages names specs no_edges ≡ ok g
      → (l : List String) × (topological_names names specs ≡ ok l)
  unfolding topological_names
  topological_names_total rank known falls g built =
      let added = add_stages-Counts names specs no_edges g built in
      let (placed, found, p) = placement g added in
      let all = λ (c : String). everything placed p (suc (rank c)) c (omega arith) in
      let full : length placed ≡ length names = omega (
        arith,
        length-le_of_unique names placed distinct all,
        length-le_of_unique placed names p.unique p.known,
      ) in
      (placed, ground arith)
    where
      everything :
          (placed : List String)
          → IsPlacement names specs g.children
              (counted g (add_stages-Counts names specs no_edges g built))
              covered
              placed
          → (n : ℕ) (c : String) → rank c < n
          → contains names c ≡ true
          → contains placed c ≡ true
      everything placed p zero c lt m = absurd (omega arith)
      everything placed p (suc n) c lt m = p.closed c m (
          pending_of_done specs placed c
            (λ d e. everything placed p n d (omega (arith, falls c d e)) (known c d e)))

-- Where every dependency is known, building the dictionaries does not raise.
add_dependencies_total :
    (names : List String) (stage : String) (deps : List String) (g : Edges)
    → ((d : String) → contains deps d ≡ true → contains names d ≡ true)
    → (g' : Edges) × (add_dependencies names stage deps g ≡ ok g')
unfolding add_dependencies
add_dependencies_total names stage [] g h = (g, refl)
add_dependencies_total names stage (x ∷ deps) g h =
    let known = h x (ground (arith, eq_iff x x)) in
    let (g', e) =
      add_dependencies_total names stage deps (add_edge stage x g) (λ d m. h d (ground arith)) in
    (g', ground arith)

abbrev pub AllKnown : List String → List StageSpec → Type 0
AllKnown names [] = Unit
AllKnown names (spec ∷ specs) =
    ((d : String) → contains spec.dependencies d ≡ true → contains names d ≡ true)
    × AllKnown names specs

pub add_stages_total :
    (names : List String) (specs : List StageSpec) (g : Edges)
    → AllKnown names specs
    → (g' : Edges) × (add_stages names specs g ≡ ok g')
unfolding add_stages
add_stages_total names [] g h = (g, refl)
add_stages_total names (spec ∷ specs) g h =
    let (g1, e) = add_dependencies_total names spec.stage_id spec.dependencies g h.0 in
    let (g2, f) = add_stages_total names specs g1 h.1 in (g2, ground arith)
