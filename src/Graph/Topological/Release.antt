-- ===== src/Graph/Topological/Release.antt =====
-- What releasing the children of a placed stage does to the counts and to the ready list.
use fused_index_top_k.Base.{
  ◌-◌, String, ◌≡◌, true, ◌&&◌, ◌||◌, List, [], ◌∷◌, ◌++◌, eqb, leb, ◌==◌, string_eq, eq_iff,
  contains, countb, contains-append, contains-sorted, sorted-IsUnique, IsUnique, IsUnique-snoc,
  arith, Bool-cases, inl, inr,
}
use fused_index_top_k.Graph.{str_leb}
use fused_index_top_k.Graph.Topological.{Progress, release_child, release}

pub indegree-release :
    (children : List String) (p : Progress) (c : String)
    → (release children p).indegree c ≡ p.indegree c - countb (λ x. x == c) children
unfolding release release_child
indegree-release [] p c = omega arith
indegree-release (child ∷ rest) p c =
    ground (arith, indegree-release rest (release_child child p) c, eq_iff child c)

-- A stage is ready afterwards if it was, or if its count came down to zero.
pub ready-release :
    (children : List String) (p : Progress) (c : String)
    → contains (release children p).ready c ≡ (
        contains p.ready c
        || (leb 1 (p.indegree c) && leb (p.indegree c) (countb (λ x. x == c) children)))
unfolding release release_child
ready-release [] p c = ground arith
ready-release (child ∷ rest) p c = ground (
  arith,
  ready-release rest (release_child child p) c,
  eq_iff child c,
  contains-sorted str_leb (p.ready ++ child ∷ []) c,
  contains-append p.ready (child ∷ []) c,
)

-- The ready list has no duplicates, and its stages have nothing pending.
pub record IsReady (p : Progress) : Type 0 where
  pub unique : IsUnique p.ready
  pub zero_degree : (c : String) → contains p.ready c ≡ true → p.indegree c ≡ 0

release_child-IsReady :
    (child : String) (p : Progress) → IsReady p → IsReady (release_child child p)
unfolding release_child
release_child-IsReady child p r = elim (Bool-cases (eqb (p.indegree child) 1)) [
  | inl last ↦ record {
    unique = rw last (
        sorted-IsUnique str_leb (p.ready ++ child ∷ [])
          (IsUnique-snoc p.ready child r.unique (ground (arith, r.zero_degree child))));
    zero_degree = λ c m. ground (
      arith,
      r.zero_degree c,
      eq_iff child c,
      contains-sorted str_leb (p.ready ++ child ∷ []) c,
      contains-append p.ready (child ∷ []) c,
    );
  }
  | inr more ↦ record {
    unique = rw more r.unique;
    zero_degree = λ c m. ground (arith, r.zero_degree c);
  }
]

pub release-IsReady :
    (children : List String) (p : Progress) → IsReady p → IsReady (release children p)
unfolding release release_child
release-IsReady [] p r = r
release-IsReady (child ∷ rest) p r =
    release-IsReady rest (release_child child p) (release_child-IsReady child p r)
