-- ===== src/Nvtx.antt =====
-- src/fused_index_topk/nvtx.py: the labels of profiler ranges. A label is the list of its code points.
pub mod Labels
pub mod Ranges
use fused_index_top_k.Api.{StageNode, PreparedGraph, PrefillCase}
use fused_index_top_k.Base.{
  ℕ, zero, suc, ◌+◌, String, Bool, true, false, not, ◌&&◌, ◌||◌, Option, none, some, List, [], ◌∷◌,
  ◌++◌, eqb, ltb, leb, if◌then◌else◌, ◌==◌, nat_eq, string_eq, length, contains, Dict, get, put,
  Result, ok, err, ◌>>=◌, ◌>>◌, raise_if, map_err,
}
use fused_index_top_k.Graph.{GraphError}
use fused_index_top_k.Graph.Validate.{codes, safe_codes, validate_graph}

pub data NvtxError : Type 0 where
  bad_component label_too_long unsafe_label not_positive : NvtxError
  invalid_graph : GraphError → NvtxError

abbrev pub colon : ℕ
colon = b':'

abbrev pub max_label_bytes : ℕ
max_label_bytes = 240

-- `_SAFE_COMPONENT.fullmatch`
unfoldable pub safe_component : List ℕ → Bool
safe_component value = safe_codes value && leb (length value) 64

unfoldable pub validate_label_component : List ℕ → Result NvtxError (List ℕ)
validate_label_component value = do raise_if (not (safe_component value)) bad_component; ok value

-- `"::".join(components)`
unfoldable pub join : List (List ℕ) → List ℕ
join [] = []
join (x ∷ []) = x
join (x ∷ y ∷ rest) = x ++ colon ∷ colon ∷ join (y ∷ rest)

-- `len(text.encode("utf-8"))`
abbrev pub utf8_width : ℕ → ℕ
utf8_width c = if ltb c 128 then 1 else if ltb c 2048 then 2 else if ltb c 65536 then 3 else 4

unfoldable pub utf8_length : List ℕ → ℕ
utf8_length [] = 0
utf8_length (c ∷ cs) = utf8_width c + utf8_length cs

unfoldable pub checked_label : List (List ℕ) → Result NvtxError (List ℕ)
checked_label components = do
  let label = join (codes "ITK" ∷ components)
  raise_if (ltb max_label_bytes (utf8_length label)) label_too_long
  ok label

unfoldable pub pipeline_label : List ℕ → List ℕ → Result NvtxError (List ℕ)
pipeline_label variant_id case_id = do
  variant ← validate_label_component variant_id
  case ← validate_label_component case_id
  checked_label (codes "RUN" ∷ variant ∷ case ∷ [])

unfoldable pub stage_label : List ℕ → List ℕ → List ℕ → Result NvtxError (List ℕ)
stage_label variant_id case_id stage_id = do
  variant ← validate_label_component variant_id
  case ← validate_label_component case_id
  stage ← validate_label_component stage_id
  checked_label (codes "STAGE" ∷ variant ∷ case ∷ stage ∷ [])

-- `label.startswith(prefix)`
abbrev pub starts_with : List ℕ → List ℕ → Bool
starts_with label [] = true
starts_with [] (c ∷ prefix) = false
starts_with (d ∷ label) (c ∷ prefix) = eqb d c && starts_with label prefix

unfoldable pub ncu_push_pop_filter : List ℕ → Result NvtxError (List ℕ)
ncu_push_pop_filter label = do
  raise_if (not (starts_with label (codes "ITK::")) || contains label b'/' || contains label b'@')
      unsafe_label
  ok (label ++ b'/' ∷ [])

pub record GraphNvtxLabels : Type 0 where
  pub pipeline : List ℕ
  pub stages : Dict (List ℕ)

module _ {V : Type 0} where
  -- The dictionary of `graph_labels`, one stage after the other.
  unfoldable pub label_stages :
      List ℕ → List ℕ → List (StageNode V) → Dict (List ℕ) → Result NvtxError (Dict (List ℕ))
  label_stages variant_id case_id [] labels = ok labels
  label_stages variant_id case_id (node ∷ nodes) labels = do
    label ← stage_label variant_id case_id (codes node.spec.stage_id)
    label_stages variant_id case_id nodes (put labels node.spec.stage_id label)

  unfoldable pub graph_labels : PreparedGraph V → PrefillCase → Result NvtxError GraphNvtxLabels
  graph_labels graph case = do
    ordered ← map_err invalid_graph (validate_graph graph)
    let variant_id = codes graph.descriptor.plugin_id
    let case_id = codes case.case_id
    labels ← label_stages variant_id case_id ordered []
    whole ← pipeline_label variant_id case_id
    ok (record { pipeline = whole; stages = labels })

  -- The label that `stage_range_factory`'s callback gives a node; `none` where it raises.
  unfoldable pub stage_range_label : GraphNvtxLabels → StageNode V → Option (List ℕ)
  stage_range_label labels node = get labels.stages node.spec.stage_id
