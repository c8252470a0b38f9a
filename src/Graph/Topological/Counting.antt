-- ===== src/Graph/Topological/Counting.antt =====
-- The dependency edges of a list of stages, and what building the two dictionaries makes of them.
use fused_index_top_k.Api.{StageSpec}
use fused_index_top_k.Base.{
  ℕ, ◌+◌, ◌<◌, String, ◌≡◌, refl, Bool, true, false, not, List, [], ◌∷◌, ◌++◌, if◌then◌else◌, ◌==◌,
  string_eq, eq_iff, contains, countb, contains-append, ok, >>=-eq-ok, Bool-cases, inl, inr, arith,
}
use fused_index_top_k.Graph.Topological.{Edges, add_edge, add_dependencies, add_stages}

-- how often the stages named c depend on d
abbrev pub edges : List StageSpec → String → String → ℕ
edges [] c d = 0
edges (spec ∷ specs) c d =
    (if spec.stage_id == c then countb (λ x. x == d) spec.dependencies else 0) + edges specs c d

-- how many dependencies of the stages named c are not done
abbrev pub pending : List StageSpec → List String → String → ℕ
pending [] done c = 0
pending (spec ∷ specs) done c =
    (if spec.stage_id == c then countb (λ x. not (contains done x)) spec.dependencies else 0)
    + pending specs done c

countb-done :
    (done : List String) (name : String) (deps : List String)
    → contains done name ≡ false
    → countb (λ x. not (contains (done ++ name ∷ []) x)) deps + countb (λ x. x == name) deps
      ≡ countb (λ x. not (contains done x)) deps
countb-done done name [] h = omega arith
countb-done done name (x ∷ deps) h = ground (
  arith,
  countb-done done name deps h,
  contains-append done (name ∷ []) x,
  eq_iff name x,
  eq_iff x name,
)

-- One more stage done is that stage's edges fewer pending.
pub pending-snoc :
    (specs : List StageSpec) (done : List String) (name c : String)
    → contains done name ≡ false
    → pending specs (done ++ name ∷ []) c + edges specs c name ≡ pending specs done c
pending-snoc [] done name c h = omega arith
pending-snoc (spec ∷ specs) done name c h =
    ground (arith, pending-snoc specs done name c h, countb-done done name spec.dependencies h)

countb-none_pending :
    (done : List String) (d : String) (deps : List String)
    → countb (λ x. not (contains done x)) deps ≡ 0
    → 0 < countb (λ x. x == d) deps
    → contains done d ≡ true
countb-none_pending done d [] z h = absurd (omega arith)
countb-none_pending done d (x ∷ deps) z h =
    ground (arith, countb-none_pending done d deps, eq_iff x d)

-- With nothing pending, every dependency is done.
pub pending_zero :
    (specs : List StageSpec) (done : List String) (c d : String)
    → pending specs done c ≡ 0
    → 0 < edges specs c d
    → contains done d ≡ true
pending_zero [] done c d z h = absurd (omega arith)
pending_zero (spec ∷ specs) done c d z h =
    ground (arith, pending_zero specs done c d, countb-none_pending done d spec.dependencies)

countb-all_done :
    (done : List String) (deps : List String)
    → ((d : String) → 0 < countb (λ x. x == d) deps → contains done d ≡ true)
    → countb (λ x. not (contains done x)) deps ≡ 0
countb-all_done done [] h = refl
countb-all_done done (x ∷ deps) h =
    ground (arith, h x, eq_iff x x, countb-all_done done deps (λ d m. h d (ground arith)))

pub pending_of_done :
    (specs : List StageSpec) (done : List String) (c : String)
    → ((d : String) → 0 < edges specs c d → contains done d ≡ true)
    → pending specs done c ≡ 0
pending_of_done [] done c h = refl
pending_of_done (spec ∷ specs) done c h = elim (Bool-cases (spec.stage_id == c)) [
  | inl here ↦ ground (
    arith,
    pending_of_done specs done c (λ d m. h d (ground arith)),
    countb-all_done done spec.dependencies (λ d m. h d (ground arith)),
  )
  | inr other ↦ ground (arith, pending_of_done specs done c (λ d m. h d (ground arith)))
]

countb-nil : (deps : List String) → countb (λ x. not false) deps ≡ countb (λ x. true) deps
countb-nil deps = refl

-- What the loop over the dependencies of one stage adds.
record Added (stage : String) (deps : List String) (g g' : Edges) : Type 0 where
  degrees :
      (c : String)
      → g'.indegree c ≡ (if stage == c then countb (λ x. not false) deps else 0) + g.indegree c
  children :
      (d c : String)
      → countb (λ x. x == c) (g'.children d)
        ≡ (if stage == c then countb (λ x. x == d) deps else 0)
          + countb (λ x. x == c) (g.children d)

countb-append :
    (p : String → Bool) (xs ys : List String) → countb p (xs ++ ys) ≡ countb p xs + countb p ys
countb-append p [] ys = omega arith
countb-append p (x ∷ xs) ys = ground (arith, countb-append p xs ys)

add_dependencies-Added :
    (names : List String) (stage : String) (deps : List String) (g g' : Edges)
    → add_dependencies names stage deps g ≡ ok g'
    → Added stage deps g g'
unfolding add_dependencies
add_dependencies-Added names stage [] g g' h = record {
  degrees = λ c. ground arith;
  children = λ d c. ground arith;
}
add_dependencies-Added names stage (x ∷ deps) g g' h = elim (Bool-cases (contains names x)) [
  | inr out ↦ ground arith
  | inl known ↦
      let ih = add_dependencies-Added names stage deps (add_edge stage x g) g' (ground arith) in
      record {
        degrees = λ c. ground (arith, ih.degrees c);
        children = λ d c.
            ground
              (arith, ih.children d c, countb-append (λ y. y == c) (g.children d) (stage ∷ []));
      }
]

-- The dictionaries count the edges.
pub record Counts (specs : List StageSpec) (g g' : Edges) : Type 0 where
  pub degrees : (c : String) → g'.indegree c ≡ pending specs [] c + g.indegree c
  pub children :
      (d c : String)
      → countb (λ x. x == c) (g'.children d) ≡ edges specs c d + countb (λ x. x == c) (g.children d)

pub add_stages-Counts :
    (names : List String) (specs : List StageSpec) (g g' : Edges)
    → add_stages names specs g ≡ ok g'
    → Counts specs g g'
unfolding add_stages
add_stages-Counts names [] g g' h = record {
  degrees = λ c. ground arith;
  children = λ d c. ground arith;
}
add_stages-Counts names (spec ∷ specs) g g' h =
    let (g1, first, rest) =
      >>=-eq-ok (add_dependencies names spec.stage_id spec.dependencies g) _ h in
    let one = add_dependencies-Added names spec.stage_id spec.dependencies g g1 first in
    let ih = add_stages-Counts names specs g1 g' rest in
    record {
      degrees = λ c. omega (arith, one.degrees c, ih.degrees c);
      children = λ d c. omega (arith, one.children d c, ih.children d c);
    }
