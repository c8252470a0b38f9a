-- ===== src/Campaign/Balance.antt =====
-- The plan of a campaign is balanced between the two variants.
use fused_index_top_k.Base.{
  ℕ, suc, ◌≤◌, ◌≡◌, refl, sym, subst, ◌⊎◌, inl, inr, String, true, false, List, [], ◌∷◌, map, ◌==◌,
  string_eq, nat_eq, length, filterb, contains, keys, ok, arith, eq_iff, eq_self, get_of_key,
}
use fused_index_top_k.Config.{Json, Floats, LabConfig, shape_eq}
use fused_index_top_k.Campaign.{safe_id_codes, Run, order_runs, plan_runs, build_campaign_plan}
use fused_index_top_k.Config.Cases.{variant_factory}
use fused_index_top_k.Config.Contract.{TruncatesMinusOne}
use fused_index_top_k.Config.Parse.{parse_config}
use fused_index_top_k.Config.Readers.{All}
use fused_index_top_k.Config.Accepted.{parse_config-IsConfig}
use fused_index_top_k.Config.Timing.{is_order}
use fused_index_top_k.Graph.Validate.{codes}

abbrev runs_of : String → List Run → List Run
runs_of variant = filterb (λ (r : Run). r.variant == variant)

abbrev positions : List Run → List ℕ
positions = map (λ (r : Run). r.position)

-- Four runs in order, two of each variant, whose positions have the same sum: a drift that grows
-- with time from run to run weighs on both variants alike.
abbrev pub IsBalanced : String → String → ℕ → List Run → Type 0
IsBalanced baseline candidate campaign runs =
    (positions runs ≡ 1 ∷ 2 ∷ 3 ∷ 4 ∷ [])
    × ((positions (runs_of baseline runs) ≡ 1 ∷ 4 ∷ [])
          × (positions (runs_of candidate runs) ≡ 2 ∷ 3 ∷ [])
        ⊎ (positions (runs_of baseline runs) ≡ 2 ∷ 3 ∷ [])
          × (positions (runs_of candidate runs) ≡ 1 ∷ 4 ∷ []))
    × All (λ (r : Run). r.campaign ≡ campaign) runs

abbrev pub AreBalanced : String → String → ℕ → List (List Run) → Type 0
AreBalanced baseline candidate campaign [] = Unit
AreBalanced baseline candidate campaign (runs ∷ rest) =
    IsBalanced baseline candidate campaign runs × AreBalanced baseline candidate (suc campaign) rest

is_order-cases : (order : String) → is_order order ≡ true → (order ≡ "ABBA") ⊎ (order ≡ "BAAB")
is_order-cases order h = ground (arith, eq_iff order "ABBA", eq_iff order "BAAB")

order_runs-IsBalanced :
    (run_id baseline candidate order : String) (campaign : ℕ)
    → (candidate == baseline) ≡ false
    → is_order order ≡ true
    → IsBalanced baseline candidate campaign
        (order_runs run_id baseline candidate campaign order 1 (codes order))
order_runs-IsBalanced run_id baseline candidate order campaign ne h =
    let other : (baseline == candidate) ≡ false =
      ground (arith, eq_iff baseline candidate, eq_iff candidate baseline) in
    let b = eq_self baseline in
    let c = eq_self candidate in
    elim (is_order-cases order h) [
      | inl is ↦
          subst
            (λ o.
              IsBalanced baseline candidate campaign
                (order_runs run_id baseline candidate campaign order 1 (codes o)))
            (sym is)
            (
              refl,
              inl (grind (arith, ne, other, b, c), grind (arith, ne, other, b, c)),
              (refl, (refl, (refl, (refl, tt)))),
            )
      | inr is ↦
          subst
            (λ o.
              IsBalanced baseline candidate campaign
                (order_runs run_id baseline candidate campaign order 1 (codes o)))
            (sym is)
            (
              refl,
              inr (grind (arith, ne, other, b, c), grind (arith, ne, other, b, c)),
              (refl, (refl, (refl, (refl, tt)))),
            )
    ]

plan_runs_total :
    (run_id baseline candidate : String) (campaign : ℕ) (orders : List String)
    → (candidate == baseline) ≡ false
    → All (λ order. is_order order ≡ true) orders
    → (runs : List (List Run)) × (plan_runs run_id baseline candidate campaign orders ≡ ok runs)
      × (length runs ≡ length orders)
      × AreBalanced baseline candidate campaign runs
unfolding plan_runs
plan_runs_total run_id baseline candidate campaign [] ne all = ([], refl, refl, tt)
plan_runs_total run_id baseline candidate campaign (order ∷ orders) ne all =
    let (rest, made, count, balanced) =
      plan_runs_total run_id baseline candidate (suc campaign) orders ne all.1 in
    (
      order_runs run_id baseline candidate campaign order 1 (codes order) ∷ rest,
      grind (arith, made, all.0),
      omega (arith, count),
      (order_runs-IsBalanced run_id baseline candidate order campaign ne all.0, balanced),
    )

module _ {F : Type 0} (fl : Floats F) (law : TruncatesMinusOne fl) where
  -- For an accepted configuration with at least three repetitions (each one of schema 4 has them), a
  -- safe run ID and a configured variant that is not the baseline, the plan is built: one campaign
  -- for each repetition, numbered from 1, each of four runs at the positions 1 to 4, where one of
  -- the two variants has the positions 1 and 4 and the other 2 and 3. The parameter `int` returns
  -- -1 on the number that equals -1.
  pub build_campaign_plan-AreBalanced :
      (raw : Json F) (config : LabConfig F) (candidate run_id : String)
      → parse_config fl raw ≡ ok config
      → 3 ≤ config.timing.campaign_repetitions
      → safe_id_codes (codes run_id) ≡ true
      → contains (keys config.variants) candidate ≡ true
      → (candidate == config.baseline_variant) ≡ false
      → (runs : List (List Run)) × (build_campaign_plan config candidate run_id ≡ ok runs)
        × (length runs ≡ config.timing.campaign_repetitions)
        × AreBalanced config.baseline_variant candidate 1 runs
  unfolding build_campaign_plan variant_factory
  build_campaign_plan-AreBalanced raw config candidate run_id accepted three safe known ne =
      let t = (parse_config-IsConfig fl law raw config accepted).timing_ok in
      let (variant, found) = get_of_key config.variants candidate known in
      let (runs, made, count, balanced) =
        plan_runs_total run_id config.baseline_variant candidate 1 config.timing.campaign_orders ne
          t.orders in
      (
        runs,
        ground (arith, found, made, safe, ne, three, t.order_each),
        omega (arith, count, t.order_each),
        balanced,
      )
