-- ===== src/Graph.antt =====
-- src/fused_index_topk/graph.py: variant graphs, their validation and their execution on one stream.
pub mod Topological
pub mod Validate
pub mod Execute
use Prim.Native.Nat.{Ordering}
use Prim.Native.String.{compare}
use fused_index_top_k.Base.{ℕ, String, Bool, true, false, List, [], ◌∷◌}

pub data GraphError : Type 0 where
  missing_dependency cycle loop_limit : GraphError
  unsafe_plugin_id duplicate_stage_id uncovered_semantics dead_comparable : GraphError
  unsafe_stage_id produced_twice not_executable consumes_missing outside_chain unknown_semantics
        terminal_never_produced missing_label stage_raised not_produced :
      String → GraphError

-- Python compares texts by their code points, as UTF-8 bytes compare.
abbrev pub str_leb : String → String → Bool
str_leb a b = elim (compare a b) [ Ordering.gt ↦ false | _ ↦ true ]

abbrev pub is_empty : List String → Bool
is_empty [] = true
is_empty (x ∷ xs) = false
