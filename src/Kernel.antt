-- ===== src/Kernel.antt =====
-- src/fused_index_topk/kernel/plugin.py and kernel/sampling.py: the host side of the fused
-- operator. The sampling schedule, the cases that the operator supports and the chunks of the exact
-- repair.
pub mod Sampling
pub mod Chunks
pub mod Host
pub mod Specs
pub mod Plugin
pub mod Fitting
pub mod Contracts
pub mod Runs
use fused_index_top_k.Api.{PrefillCase}
use fused_index_top_k.Base.{
  ℕ, zero, suc, ◌+◌, ◌-◌, ◌*◌, ◌/◌, ◌%◌, min, max, String, Bool, true, false, not, ◌&&◌, ◌||◌,
  Option, none, some, List, [], ◌∷◌, eqb, ltb, leb, if◌then◌else◌, Result, ok, err, ◌>>=◌, ◌>>◌,
  raise_if,
}
use fused_index_top_k.Variants.{supports_frozen_deepgemm_case}

abbrev pub top_k_size : ℕ
top_k_size = 2048

abbrev pub target_candidates : ℕ
target_candidates = 2816

abbrev pub repair_chunk_elements : ℕ
repair_chunk_elements = 16384

abbrev pub max_context : ℕ
max_context = 163840

pub data KernelError : Type 0 where
  context_not_positive short_context bad_target bad_samples bad_sigmas no_ceiling unsupported_case
        options_changed_after_construction :
      KernelError

-- `math.ceil(n / d)` for a positive d
abbrev pub ceil_div : ℕ → ℕ → ℕ
ceil_div n d = (n + (d - 1)) / d

-- `sample_elements_for_context`
unfoldable pub sample_elements_for_context : ℕ → Result KernelError ℕ
sample_elements_for_context context_tokens = do
  raise_if (leb context_tokens 0) context_not_positive
  let full_tiles = max 1 (context_tokens / 128)
  let sample_tiles = max 1 (ceil_div full_tiles 200)
  ok (min context_tokens (sample_tiles * 128))

-- `long_context_sample_elements`
unfoldable pub long_context_sample_elements : ℕ → Result KernelError ℕ
long_context_sample_elements context_tokens = do
  raise_if (leb context_tokens repair_chunk_elements) short_context
  let proportional = ceil_div (context_tokens * 3) 256
  let samples =
      if leb context_tokens 32768
      then 512
      else if leb context_tokens 65536
      then 1024
      else max 1024 (ceil_div proportional 256 * 256)
  ok (min context_tokens samples)

-- `production_sample_elements`
unfoldable pub production_sample_elements : ℕ → Result KernelError ℕ
production_sample_elements context_tokens =
    if eqb context_tokens repair_chunk_elements
    then ok 256
    else if ltb context_tokens repair_chunk_elements
    then ok 512
    else long_context_sample_elements context_tokens

-- Python's `float`: `a / b` of two integers, `n * x`, `1.0 - x`, the product, the sum, the root and
-- the two tests. `ceil` is `math.ceil` of a number, an integer below zero read as 0; it raises on an
-- infinity and on NaN.
pub record Doubles (D : Type 0) : Type 0 where
  pub ratio : ℕ → ℕ → D
  pub scaled : ℕ → D → D
  pub complement : D → D
  pub times : D → D → D
  pub plus : D → D → D
  pub sqrt : D → D
  pub is_negative : D → Bool
  pub is_finite : D → Bool
  pub ceil : D → Option ℕ

module _ {D : Type 0} (doubles : Doubles D) where
  -- `mean + guard_sigmas * deviation`
  abbrev pub rank_estimate : D → ℕ → ℕ → ℕ → D
  rank_estimate guard_sigmas sample_elements context_tokens target =
      let probability = doubles.ratio target context_tokens in
      let mean = doubles.scaled sample_elements probability in
      let deviation = doubles.sqrt (doubles.times mean (doubles.complement probability)) in
      doubles.plus mean (doubles.times guard_sigmas deviation)

  -- `max(1, min(sample_elements, math.ceil(...)))`
  abbrev pub clamp_rank : ℕ → Option ℕ → Result KernelError ℕ
  clamp_rank sample_elements none = err no_ceiling
  clamp_rank sample_elements (some ceiling) = ok (max 1 (min sample_elements ceiling))

  -- `guarded_sample_rank`
  unfoldable pub guarded_sample_rank : D → ℕ → ℕ → ℕ → Result KernelError ℕ
  guarded_sample_rank guard_sigmas sample_elements context_tokens target = do
    raise_if (not (ltb 0 target && leb target context_tokens)) bad_target
    raise_if (not (ltb 0 sample_elements && leb sample_elements context_tokens)) bad_samples
    raise_if (doubles.is_negative guard_sigmas || not (doubles.is_finite guard_sigmas)) bad_sigmas
    clamp_rank sample_elements
        (doubles.ceil (rank_estimate guard_sigmas sample_elements context_tokens target))

-- `FusedIndexTopK.supports`
unfoldable pub supports : ℕ → PrefillCase → Bool
supports block_q case =
    supports_frozen_deepgemm_case case
    && (leb 8192 case.context_tokens && leb case.context_tokens max_context)
    && eqb (case.context_tokens % 128) 0
    && eqb case.top_k top_k_size
    && eqb (case.query_tokens % 2) 0
    && eqb (case.query_tokens % block_q) 0

-- A chunk of the repair: its offset, its size and its number.
pub record Chunk : Type 0 where
  pub logical_offset : ℕ
  pub chunk_elements : ℕ
  pub chunk_index : ℕ

-- The loop over `range(0, context_tokens, _REPAIR_CHUNK_ELEMENTS)` from one offset on; the number
-- of rounds is the length of that range.
unfoldable pub chunks_from : ℕ → ℕ → ℕ → List Chunk
chunks_from zero logical_offset context_tokens = []
chunks_from (suc rounds) logical_offset context_tokens =
    record {
      logical_offset = logical_offset;
      chunk_elements = min repair_chunk_elements (context_tokens - logical_offset);
      chunk_index = logical_offset / repair_chunk_elements;
    }
    ∷ chunks_from rounds (logical_offset + repair_chunk_elements) context_tokens

unfoldable pub num_chunks : ℕ → ℕ
num_chunks context_tokens = (context_tokens + repair_chunk_elements - 1) / repair_chunk_elements

unfoldable pub chunks : ℕ → List Chunk
chunks context_tokens = chunks_from (ceil_div context_tokens repair_chunk_elements) 0 context_tokens
