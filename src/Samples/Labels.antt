-- ===== src/Samples/Labels.antt =====
-- The labels of the two-stage graph.
use fused_index_top_k.Base.{ℕ, ◌≡◌, refl, true, some, List, [], ◌∷◌, ◌++◌, inl, ok}
use fused_index_top_k.Graph.Validate.{codes}
use fused_index_top_k.Nvtx.{
  safe_component, validate_label_component, join, utf8_length, checked_label, pipeline_label,
  stage_label, ncu_push_pop_filter, GraphNvtxLabels, label_stages, graph_labels, stage_range_label,
}
use fused_index_top_k.Nvtx.Labels.{split, split-stage_label, stage_label_total}
use fused_index_top_k.Nvtx.Ranges.{graph_labels-stage_range_label}
use fused_index_top_k.Samples.Graphs.{graph, case, topk_node, valid}

abbrev variant : List ℕ
variant = codes "two_stages"

made :
    stage_label variant (codes "small") (codes "a_topk")
    ≡ ok (codes "ITK::STAGE::two_stages::small::a_topk")
unfolding stage_label validate_label_component safe_component checked_label join utf8_length
made = refl

safe : (safe_component variant ≡ true)
unfolding safe_component
safe = refl

split-stage_label_example :
    split (codes "ITK::STAGE::two_stages::small::a_topk")
    ≡ codes "ITK" ∷ codes "STAGE" ∷ variant ∷ codes "small" ∷ codes "a_topk" ∷ []
split-stage_label_example =
    split-stage_label variant (codes "small") (codes "a_topk")
      (codes "ITK::STAGE::two_stages::small::a_topk") made

stage_label_total_example :
    (label : List ℕ) × (stage_label variant variant variant ≡ ok label)
    × (ncu_push_pop_filter label ≡ ok (label ++ b'/' ∷ []))
stage_label_total_example = stage_label_total variant variant variant safe safe safe

abbrev labels : GraphNvtxLabels
labels = record {
  pipeline = codes "ITK::RUN::two_stages::small";
  stages =
      ("indexer", codes "ITK::STAGE::two_stages::small::indexer")
      ∷ ("a_topk", codes "ITK::STAGE::two_stages::small::a_topk")
      ∷ [];
}

labelled : graph_labels graph case ≡ ok labels
unfolding graph_labels label_stages pipeline_label stage_label validate_label_component
    safe_component checked_label join utf8_length
labelled = rw valid refl

graph_labels-stage_range_label_example :
    (label : List ℕ) × (stage_range_label labels topk_node ≡ some label)
    × (split label
        ≡ codes "ITK" ∷ codes "STAGE" ∷ codes "two_stages" ∷ codes "small" ∷ codes "a_topk" ∷ [])
graph_labels-stage_range_label_example =
    graph_labels-stage_range_label graph case labels labelled topk_node (inl refl)
