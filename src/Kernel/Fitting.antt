-- ===== src/Kernel/Fitting.antt =====
-- What the launches of the fused operator are assumed to do, and the sizes with which the host's
-- checks pass.

use fused_index_top_k.Base.{
  ℕ, suc, ◌+◌, ◌*◌, ◌%◌, ◌||◌, ◌≤◌, ◌<◌, ◌≡◌, refl, Bool, true, some, List, [], ◌∷◌, eqb, string_eq,
  arith,
}
use fused_index_top_k.Kernel.{Chunk, repair_chunk_elements}
use fused_index_top_k.Kernel.Host.{producer_accepts, local_accepts, reducer_accepts}
use fused_index_top_k.Kernel.Plugin.{Sizes, Launches, repair_chunk, repair_chunks}
use fused_index_top_k.Kernel.Chunks.{IsPartition}

-- The device does its part of the launches, and the views of a chunk exist and are contiguous within
-- the context.
pub record LaunchesReturn {V : Type 0} (context_tokens : ℕ) (l : Launches V) : Type 0 where
  pub gathers : (v : V) → l.gather_out v ≡ true
  pub scores : (v : V) → (s : V) × (l.fp8_mqa_logits v ≡ some s)
  pub thresholds : (v w : V) (rank target : ℕ) → l.threshold_out v w rank target ≡ true
  pub selects : (v w : V) → l.fp8_mqa_topk_out v w ≡ true
  pub ranges : (v : V) → l.update_ranges_out v ≡ true
  pub views : (v : V) (o n : ℕ) → o + n ≤ context_tokens → l.is_contiguous v o n ≡ true
  pub produces : (v : V) (o n : ℕ) → l.produce_repair_candidates_out v o n ≡ true
  pub selects_locally : (o : ℕ) (first : Bool) → l.local_topk_pairs_out o first ≡ true
  pub merges : (first : Bool) → l.merge_topk_pairs_out first ≡ true
  pub finishes : l.finalize_repair_out ≡ true

-- The sizes with which the host's checks of all launches pass.
pub record IsFitting (num_sms : ℕ) (z : Sizes) : Type 0 where
  pub some_rows : 0 < z.case.query_tokens
  pub rows_fit : z.case.query_tokens ≤ z.case.context_tokens
  pub rows_in_pairs : z.case.query_tokens % 2 ≡ 0
  pub rows_in_blocks : z.case.query_tokens % z.block_q ≡ 0
  pub block_size : (eqb z.block_q 1 || eqb z.block_q 2) ≡ true
  pub long_enough : 8192 ≤ z.case.context_tokens
  pub short_enough : z.case.context_tokens ≤ 163840
  pub in_tiles : z.case.context_tokens % 128 ≡ 0
  pub heads : z.case.indexer_heads ≡ 64
  pub dim : z.case.head_dim ≡ 128
  pub some_samples : 0 < z.sample_elements
  pub samples_fit : z.sample_elements ≤ z.case.context_tokens
  pub positive_rank : 1 ≤ z.sample_rank
  pub rank_fits : z.sample_rank ≤ z.sample_elements
  pub enough_sms : z.debug_ctas ≤ num_sms * 2

partition_within :
    (index offset context : ℕ) (cs : List Chunk)
    → IsPartition index offset context cs
    → offset ≤ context
partition_within index offset context [] p = omega (arith, p)
partition_within index offset context (c ∷ cs) p =
    omega (arith, partition_within (suc index) (offset + c.chunk_elements) context cs p.5)

chunk_accepted :
    (num_sms : ℕ) (z : Sizes) (c : Chunk)
    → IsFitting num_sms z
    → 0 < c.chunk_elements
    → c.chunk_elements ≤ repair_chunk_elements
    → c.logical_offset ≤ z.case.context_tokens
    → (producer_accepts z.case.query_tokens c.chunk_elements z.case.indexer_heads z.case.head_dim
        ≡ true)
      × (local_accepts z.case.query_tokens c.logical_offset ≡ true)
      × (reducer_accepts z.case.query_tokens ≡ true)
unfolding producer_accepts local_accepts reducer_accepts
chunk_accepted num_sms z c f p q r = (ground arith, ground arith, ground arith)

module _ {V : Type 0} where
  pub repair_chunks_return :
      (z : Sizes) (l : Launches V) (v : V) (index offset : ℕ) (cs : List Chunk)
      → LaunchesReturn z.case.context_tokens l
      → IsFitting l.num_sms z
      → IsPartition index offset z.case.context_tokens cs
      → repair_chunks z.case l v index cs ≡ true
  unfolding repair_chunks repair_chunk
  repair_chunks_return z l v index offset [] r f p = refl
  repair_chunks_return z l v index offset (c ∷ cs) r f p =
      let context = z.case.context_tokens in
      let inside = partition_within (suc index) (offset + c.chunk_elements) context cs p.5 in
      let start = p.0 in
      let view = r.views v c.logical_offset c.chunk_elements (omega (arith, start, inside)) in
      let accepted = chunk_accepted l.num_sms z c f p.2 p.3 (omega (arith, start, inside)) in
      rw
        (
          view,
          accepted.0,
          accepted.1,
          accepted.2,
          r.produces v c.logical_offset c.chunk_elements,
          r.selects_locally c.logical_offset (eqb index 0),
          r.merges (eqb index 0),
        )
        (repair_chunks_return z l v (suc index) (offset + c.chunk_elements) cs r f p.5)
