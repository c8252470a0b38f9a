-- ===== src/Variants.antt =====
-- src/fused_index_topk/variants/common.py: what the released DeepGEMM scorer supports.
pub mod Stages
pub mod DeepgemmTorch
use fused_index_top_k.Api.{PrefillCase}
use fused_index_top_k.Base.{Bool, ◌&&◌, eqb, ltb, leb}

-- `supports_frozen_deepgemm_case`
unfoldable pub supports_frozen_deepgemm_case : PrefillCase → Bool
supports_frozen_deepgemm_case case =
    eqb case.batch_size 1
    && case.causal
    && eqb case.indexer_heads 64
    && eqb case.head_dim 128
    && ltb 0 case.query_tokens
    && leb case.query_tokens case.context_tokens
    && (leb case.top_k case.context_tokens && ltb 0 case.top_k)
