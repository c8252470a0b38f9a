-- ===== src/Samples/References.antt =====
-- The exact reference with calls on numbers.
use fused_index_top_k.Api.{correctness, ExecutionContext, ArtifactStore, PreparedGraph}
use fused_index_top_k.Base.{
  ℕ, ◌≡◌, refl, true, false, ◌&&◌, none, some, List, [], ◌∷◌, contains, string_eq, keys, anyb, ltb,
  ℤ, is_nonneg, lt_minus_one, outside, ok,
}
use fused_index_top_k.Graph.Validate.{validate_graph}
use fused_index_top_k.Graph.Execute.{execute_graph}
use fused_index_top_k.Graph.Execute.Agreement.{stages_run}
use fused_index_top_k.Variants.Stages.{Calls, output_row}
use fused_index_top_k.Variants.DeepgemmTorch.{
  torch_supports, torch_prepare, CallsReturn, torch_prepare-runs, output_row-in_range,
}
use fused_index_top_k.Samples.Comparison.{case}

abbrev calls : Calls ℕ
calls = record {
  fp8_mqa_logits = λ v. some v;
  width = λ v. 3;
  topk = λ v n. some (v, n);
  clean_tail = λ v. some v;
  launcher = λ v. true;
  pack = λ values ids inputs. some ids;
}

calls_return : CallsReturn calls
calls_return = record {
  scores = λ v. (v, refl);
  selects = λ v n h. ((v, n), refl);
  packs = λ values ids inputs. (ids, refl);
}

abbrev context : ExecutionContext
context = record { case = case; mode = correctness; iteration = 0 }

supported : torch_supports case ≡ true
unfolding torch_supports
supported = refl

torch_prepare-runs_example :
    (graph : PreparedGraph ℕ) × (final : ArtifactStore ℕ) × (torch_prepare false case 9 calls
      ≡ ok graph)
    × (validate_graph graph ≡ ok graph.nodes)
    × ((execute_graph graph context none).0 ≡ ok final)
    × (contains (keys final) "indices" ≡ true)
    × (stages_run (execute_graph graph context none).1 ≡ ("indexer" ∷ "topk" ∷ "output" ∷ []))
torch_prepare-runs_example = torch_prepare-runs calls calls_return context case 9 supported

abbrev values : List ℕ
values = 7 ∷ 0 ∷ 5 ∷ []

abbrev ids : List ℤ
ids = ℤ.pos 1 ∷ ℤ.pos 4 ∷ ℤ.negsuc 0 ∷ []

output_row-in_range_example :
    (anyb lt_minus_one (output_row (λ v. ltb 0 v) 3 values ids) ≡ false)
    × (anyb (λ v. is_nonneg v && outside 3 v) (output_row (λ v. ltb 0 v) 3 values ids) ≡ false)
output_row-in_range_example = output_row-in_range (λ v. ltb 0 v) 3 values ids
