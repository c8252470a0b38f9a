-- ===== src/Kernel/Sampling.antt =====
-- Bounds of the sampling schedule and the partition of the context into repair chunks.
use fused_index_top_k.Api.{PrefillCase}
use fused_index_top_k.Base.{
  ℕ, ◌*◌, ◌/◌, ◌%◌, ◌≤◌, ◌<◌, min, max, ◌≡◌, refl, true, eqb, ltb, leb, Bool-cases, inl, inr, ok,
  arith, err, Option, none, some, Option-cases, ◌⊎◌, false,
}
use fused_index_top_k.Kernel.{
  repair_chunk_elements, ceil_div, sample_elements_for_context, long_context_sample_elements,
  production_sample_elements, guarded_sample_rank, supports, target_candidates, Doubles,
  rank_estimate, clamp_rank, no_ceiling,
}

sample_elements_lem :
    (n : ℕ) → 0 < n → (s : ℕ) × (sample_elements_for_context n ≡ ok s) × (0 < s) × (s ≤ n)
unfolding sample_elements_for_context
sample_elements_lem n h =
    (min n (max 1 (ceil_div (max 1 (n / 128)) 200) * 128), ground arith, ground arith, ground arith)

-- A sample size that the threshold kernel takes: a positive multiple of 256 within the context.
abbrev pub IsSampleSize : ℕ → ℕ → Type 0
IsSampleSize context_tokens s = (0 < s) × (s ≤ context_tokens) × (s % 256 ≡ 0)

long_samples :
    (n : ℕ)
    → repair_chunk_elements < n
    → (s : ℕ) × (long_context_sample_elements n ≡ ok s) × IsSampleSize n s
unfolding long_context_sample_elements
long_samples n h = elim (Bool-cases (leb n 32768)) [
  | inl e ↦ (512, ground arith, (ground arith, ground arith, ground arith))
  | inr e ↦ elim (Bool-cases (leb n 65536)) [
    | inl f ↦ (1024, ground arith, (ground arith, ground arith, ground arith))
    | inr f ↦ (
      max 1024 (ceil_div (ceil_div (n * 3) 256) 256 * 256),
      ground arith,
      (ground arith, ground arith, ground arith),
    )
  ]
]

production_samples :
    (n : ℕ) → 512 ≤ n → (s : ℕ) × (production_sample_elements n ≡ ok s) × IsSampleSize n s
unfolding production_sample_elements
production_samples n h = elim (Bool-cases (eqb n repair_chunk_elements)) [
  | inl e ↦ (256, ground arith, (ground arith, ground arith, ground arith))
  | inr e ↦ elim (Bool-cases (ltb n repair_chunk_elements)) [
    | inl f ↦ (512, ground arith, (ground arith, ground arith, ground arith))
    | inr f ↦ let (s, is, good) = long_samples n (ground arith) in (s, ground (arith, is), good)
  ]
]

module _ {D : Type 0} (doubles : Doubles D) (guard_sigmas : D) where
  -- What `guarded_sample_rank` gives: a rank within the sample, the ceiling of the estimate clamped to
  -- it; or the error of `math.ceil`, if the estimate has no ceiling.
  abbrev pub RankOutcome : ℕ → ℕ → Type 0
  RankOutcome context_tokens samples =
      ((ceiling : ℕ) × (rank : ℕ) × (doubles.ceil
            (rank_estimate doubles guard_sigmas samples context_tokens target_candidates)
          ≡ some ceiling)
        × (guarded_sample_rank doubles guard_sigmas samples context_tokens target_candidates
            ≡ ok rank)
        × (1 ≤ rank)
        × (rank ≤ samples)
        × (rank ≡ max 1 (min samples ceiling)))
      ⊎ ((doubles.ceil (rank_estimate doubles guard_sigmas samples context_tokens target_candidates)
            ≡ none)
          × (guarded_sample_rank doubles guard_sigmas samples context_tokens target_candidates
              ≡ err no_ceiling))

  guarded_sample_rank-clamps :
      (samples n : ℕ) (ceiling : Option ℕ)
      → doubles.ceil (rank_estimate doubles guard_sigmas samples n target_candidates) ≡ ceiling
      → 0 < samples
      → samples ≤ n
      → target_candidates ≤ n
      → doubles.is_negative guard_sigmas ≡ false
      → doubles.is_finite guard_sigmas ≡ true
      → guarded_sample_rank doubles guard_sigmas samples n target_candidates
        ≡ clamp_rank doubles samples ceiling
  unfolding guarded_sample_rank
  guarded_sample_rank-clamps samples n ceiling e p q r negative finite = rw (← e) (ground arith)

  guarded_sample_rank-RankOutcome :
      (samples n : ℕ)
      → 0 < samples
      → samples ≤ n
      → target_candidates ≤ n
      → doubles.is_negative guard_sigmas ≡ false
      → doubles.is_finite guard_sigmas ≡ true
      → RankOutcome n samples
  guarded_sample_rank-RankOutcome samples n p q r negative finite =
      elim (Option-cases
        (doubles.ceil (rank_estimate doubles guard_sigmas samples n target_candidates))) [
          | inl out ↦ inr (out, guarded_sample_rank-clamps samples n none out p q r negative finite)
          | inr (ceiling, is) ↦ inl (
            ceiling,
            max 1 (min samples ceiling),
            is,
            guarded_sample_rank-clamps samples n (some ceiling) is p q r negative finite,
            omega arith,
            omega arith,
            refl,
          )
        ]

  -- For every case that the operator supports, the sampling schedule gives a size, a positive
  -- multiple of 256 that is at most the context's length. With that size and finite sigmas that are
  -- not negative, the sample rank is computed, lies between 1 and the size and is the ceiling of the
  -- estimate clamped to these bounds; only an estimate without a ceiling makes it raise, and then it
  -- does.
  pub supported_samples :
      (block_q : ℕ) (case : PrefillCase)
      → supports block_q case ≡ true
      → doubles.is_negative guard_sigmas ≡ false
      → doubles.is_finite guard_sigmas ≡ true
      → (samples : ℕ) × (production_sample_elements case.context_tokens ≡ ok samples)
        × IsSampleSize case.context_tokens samples
        × RankOutcome case.context_tokens samples
  unfolding supports
  supported_samples block_q case h negative finite =
      let large : 8192 ≤ case.context_tokens = ground arith in
      let (samples, is, good) = production_samples case.context_tokens (omega arith) in
      (
        samples,
        is,
        good,
        guarded_sample_rank-RankOutcome samples case.context_tokens good.0 good.1 (omega arith)
            negative finite,
      )
