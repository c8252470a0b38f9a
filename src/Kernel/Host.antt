-- ===== src/Kernel/Host.antt =====
-- The host side of the launches, kernel/csrc: what the entry points of the extensions ask of the
-- sizes of their tensors and of their numbers before they launch. The tensors that `prepare`
-- allocates have the other sizes that are compared; element types, devices and the errors of the
-- CUDA runtime are part of Launches.
use fused_index_top_k.Base.{ℕ, ◌+◌, ◌-◌, ◌*◌, ◌/◌, ◌%◌, Bool, ◌&&◌, ◌||◌, eqb, ltb, leb}

abbrev pub int32_max : ℕ
int32_max = 2147483647

abbrev pub uint32_max : ℕ
uint32_max = 4294967295

-- `gather_out`, on the number of samples and the width of a key
unfoldable pub gather_accepts : ℕ → ℕ → Bool
gather_accepts samples head_dim = eqb head_dim 128 && ltb 0 samples && leb samples int32_max

-- `threshold_out`
unfoldable pub threshold_accepts : ℕ → ℕ → ℕ → ℕ → Bool
threshold_accepts rows samples sample_rank target =
    (ltb 0 rows && leb rows int32_max && ltb 0 samples && leb samples int32_max)
    && (ltb 0 sample_rank && leb sample_rank samples)
    && (ltb 0 target && leb target int32_max)

-- `fp8_mqa_topk_out`, with the mode 4, the tuning 6, the schedule 2 and the 184 registers that the
-- operator passes; a device has `num_sms` multiprocessors.
unfoldable pub topk_accepts : ℕ → ℕ → ℕ → ℕ → ℕ → ℕ → ℕ → Bool
topk_accepts num_sms block_q debug_ctas rows columns heads dim =
    (eqb block_q 1 || eqb block_q 2)
    && leb debug_ctas (num_sms * 2)
    && (ltb 0 rows && eqb (rows % block_q) 0)
    && (leb 8192 columns && leb columns 163840 && eqb (columns % 128) 0)
    && (eqb heads 64 && eqb dim 128)

-- `update_ranges_out`, on the rows, the columns and the rows of the chunk ranges
unfoldable pub ranges_accept : ℕ → ℕ → ℕ → Bool
ranges_accept rows columns chunk_rows =
    (leb 8192 columns && leb columns 163840 && ltb 0 rows)
    && eqb chunk_rows ((columns + 16384 - 1) / 16384)

-- `produce_repair_candidates_out`, for which a block has two rows
unfoldable pub producer_accepts : ℕ → ℕ → ℕ → ℕ → Bool
producer_accepts rows seq_len_kv heads dim =
    (ltb 0 rows && eqb (rows % 2) 0)
    && (ltb 0 seq_len_kv && leb seq_len_kv 16384)
    && (eqb heads 64 && eqb dim 128)

-- `merge_topk_pairs_out` and `finalize_repair_out`
unfoldable pub reducer_accepts : ℕ → Bool
reducer_accepts rows = ltb 0 rows && leb rows int32_max

-- `local_topk_pairs_out`
unfoldable pub local_accepts : ℕ → ℕ → Bool
local_accepts rows logical_offset =
    ltb 0 rows && leb rows int32_max && leb logical_offset uint32_max
