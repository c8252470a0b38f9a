-- ===== src/Samples/Campaigns.antt =====
-- A campaign of the sample configuration, and the status of one measured case.
use fused_index_top_k.Base.{
  ℕ, ◌≡◌, refl, List, [], ◌∷◌, ltb, leb, string_eq, nat_eq, length, ok, arith,
}
use fused_index_top_k.Campaign.{
  Run, build_campaign_plan, Measures, Policy, StabilityRecord, Block, improved, unstable,
  within_run_stability, case_status, overall_status,
}
use fused_index_top_k.Campaign.Balance.{AreBalanced, build_campaign_plan-AreBalanced}
use fused_index_top_k.Samples.Configs.{raw, config, floats, truncates, parsed}

build_campaign_plan-AreBalanced_example :
    (runs : List (List Run)) × (build_campaign_plan config "fused" "run1" ≡ ok runs)
    × (length runs ≡ 3)
    × AreBalanced "exact" "fused" 1 runs
build_campaign_plan-AreBalanced_example =
    build_campaign_plan-AreBalanced floats truncates raw config "fused" "run1" parsed (omega arith)
      refl refl refl

abbrev measures : Measures ℕ
measures = record { at_most = leb; less = ltb; one = 100; largest = λ xs. 101 }

abbrev policy : Policy ℕ
policy = record {
  minimum_trials_per_run = 20;
  maximum_normalized_mad = 5;
  maximum_p90_to_median_ratio = 110;
  improved_minimum_speedup = 103;
  regressed_maximum_speedup = 97;
  maximum_p95_ratio = 105;
}

abbrev stability : StabilityRecord ℕ
stability = record {
  count = 20;
  normalized_mad = 1;
  p90_to_median_ratio = 102;
  event_count = 20;
  event_normalized_mad = 2;
  event_p90_to_median_ratio = 104;
}

abbrev block : Block ℕ
block = record { run_stability = stability ∷ []; p95_ratio = 101; event_p95_ratio = 100 }

case_improved : case_status measures policy (block ∷ []) 110 105 120 ≡ improved
unfolding case_status within_run_stability
case_improved = refl

-- A single unstable case makes the campaign unstable.
campaign_unstable : overall_status (improved ∷ unstable ∷ []) ≡ unstable
unfolding overall_status
campaign_unstable = refl
