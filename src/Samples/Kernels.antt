-- ===== src/Samples/Kernels.antt =====
-- A case of 18,432 positions: two repair chunks, the second one short.
use fused_index_top_k.Api.{benchmark, PrefillCase, ExecutionContext}
use fused_index_top_k.Base.{
  ℕ, zero, suc, ◌+◌, ◌-◌, ◌*◌, ◌/◌, err, ◌⊎◌, ◌≡◌, refl, true, false, none, some, string_eq, length,
  ok, arith,
}
use fused_index_top_k.Kernel.{
  supports, production_sample_elements, guarded_sample_rank, target_candidates, Doubles,
  rank_estimate, no_ceiling, chunks, num_chunks,
}
use fused_index_top_k.Kernel.Sampling.{IsSampleSize, RankOutcome, supported_samples}
use fused_index_top_k.Kernel.Chunks.{IsPartition, chunks-IsPartition}
use fused_index_top_k.Kernel.Plugin.{Operator, Launches, Buffers, prepare}
use fused_index_top_k.Kernel.Host.{producer_accepts}
use fused_index_top_k.Kernel.Fitting.{LaunchesReturn}
use fused_index_top_k.Kernel.Runs.{IsRun, IsConstructed, prepare-runs}
use fused_index_top_k.Variants.{supports_frozen_deepgemm_case}

abbrev case : PrefillCase
case = record {
  case_id = "18k";
  query_tokens = 128;
  context_tokens = 18432;
  top_k = 2048;
  seed = 7;
  batch_size = 1;
  indexer_heads = 64;
  head_dim = 128;
  causal = true;
}

abbrev context : ExecutionContext
context = record { case = case; mode = benchmark; iteration = 0 }

-- The root of a number by Newton's steps.
abbrev newton : ℕ → ℕ → ℕ → ℕ
newton zero n x = x
newton (suc steps) n x = newton steps n ((x + n / x) / 2)

-- Numbers in millionths.
abbrev millionths : Doubles ℕ
millionths = record {
  ratio = λ a b. a * 1000000 / b;
  scaled = λ n x. n * x;
  complement = λ x. 1000000 - x;
  times = λ x y. x * y / 1000000;
  plus = λ x y. x + y;
  sqrt = λ x. newton 20 (x * 1000000) (x + 1000000);
  is_negative = λ x. false;
  is_finite = λ x. true;
  ceil = λ x. some ((x + 999999) / 1000000);
}

abbrev operator : Operator ℕ
operator = record { sample_guard_sigmas = 2000000; debug_ctas = 0; block_q = 1 }

constructed : IsConstructed millionths operator
constructed = record { not_negative = refl; finite = refl; block_size = refl }

-- The rank of the sample for this case.
rank_95 : guarded_sample_rank millionths 2000000 512 18432 target_candidates ≡ ok 95
unfolding guarded_sample_rank
rank_95 = refl

-- A number of rows that is odd is not supported, since the repair producer takes pairs of rows.
odd_rows : producer_accepts 127 16384 64 128 ≡ false
unfolding producer_accepts
odd_rows = refl

abbrev launches : Launches ℕ
launches = record {
  num_sms = 132;
  gather_out = λ v. true;
  threshold_out = λ v w r t. true;
  fp8_mqa_logits = λ v. some v;
  fp8_mqa_topk_out = λ v w. true;
  update_ranges_out = λ v. true;
  is_contiguous = λ v o n. true;
  produce_repair_candidates_out = λ v o n. true;
  local_topk_pairs_out = λ o first. true;
  merge_topk_pairs_out = λ first. true;
  finalize_repair_out = true;
}

abbrev buffers : Buffers ℕ
buffers = record {
  sampled_kv = 1;
  sampled_scales = 2;
  thresholds = 3;
  failure_flags = 4;
  output_rows = 5;
  trace = 6;
  spill_pairs = 7;
  repair_error_flags = 8;
}

launches_return : LaunchesReturn 18432 launches
launches_return = record {
  gathers = λ v. refl;
  scores = λ v. (v, refl);
  thresholds = λ v w r t. refl;
  selects = λ v w. refl;
  ranges = λ v. refl;
  views = λ v o n h. refl;
  produces = λ v o n. refl;
  selects_locally = λ o first. refl;
  merges = λ first. refl;
  finishes = refl;
}

supported : supports 1 case ≡ true
unfolding supports supports_frozen_deepgemm_case
supported = refl

chunks-IsPartition_example :
    IsPartition 0 0 18432 (chunks 18432) × (length (chunks 18432) ≡ num_chunks 18432)
chunks-IsPartition_example = chunks-IsPartition 18432 (omega arith) refl

supported_samples_example :
    (samples : ℕ) × (production_sample_elements 18432 ≡ ok samples)
    × IsSampleSize 18432 samples
    × RankOutcome millionths 2000000 18432 samples
supported_samples_example = supported_samples millionths 2000000 1 case supported refl refl

prepare-runs_example :
    IsRun (prepare millionths operator false case 0 launches buffers) context
    ⊎ ((samples : ℕ) × (production_sample_elements 18432 ≡ ok samples)
        × (millionths.ceil (rank_estimate millionths 2000000 samples 18432 target_candidates)
            ≡ none)
        × (prepare millionths operator false case 0 launches buffers ≡ err no_ceiling))
prepare-runs_example =
    prepare-runs millionths operator case 0 launches buffers context constructed (omega arith)
      supported launches_return
