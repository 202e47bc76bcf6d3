-- ===== src/Analysis/Scoring.antt =====
-- analysis-scoring.ts: tiers and the effective scores. The multipliers are written in hundredths
-- (1.1 is 110): on the integers 0 to 100 that the proposal's schema admits, `Math.floor` of the
-- double product is the quotient below, and 0.4 e + 0.4 i + 0.2 n never ends in .5.
pub mod Bounds
pub mod Best
use radar_ia.Prelude.{ℕ, ◌+◌, ◌*◌, ◌/◌, Bool, List, [], ◌∷◌, ltb, if◌then◌else◌}
use radar_ia.Analysis.Types.{SourceTier, tier_s, tier_a, tier_b, tier_c, tier_d, tier_e}

-- TIER_MULTIPLIERS, times 100
unfoldable pub tier_multiplier : SourceTier → ℕ
tier_multiplier tier_s = 110
tier_multiplier tier_a = 105
tier_multiplier tier_b = 100
tier_multiplier tier_c = 95
tier_multiplier tier_d = 90
tier_multiplier tier_e = 85

unfoldable pub tier_rank : SourceTier → ℕ
tier_rank tier_s = 6
tier_rank tier_a = 5
tier_rank tier_b = 4
tier_rank tier_c = 3
tier_rank tier_d = 2
tier_rank tier_e = 1

unfoldable pub is_tier_strictly_higher : SourceTier → SourceTier → Bool
unfolding tier_rank
is_tier_strictly_higher left right = ltb (tier_rank right) (tier_rank left)

-- the loop of `resolveBestSourceTier`, with the best tier so far
best_tier_from : SourceTier → List SourceTier → SourceTier
unfolding is_tier_strictly_higher
best_tier_from best [] = best
best_tier_from best (candidate ∷ rest) =
    best_tier_from (if is_tier_strictly_higher candidate best then candidate else best) rest

unfoldable pub resolve_best_source_tier : List SourceTier → SourceTier
unfolding best_tier_from
resolve_best_source_tier [] = tier_e
resolve_best_source_tier (t ∷ rest) = best_tier_from t rest

unfoldable pub clamp_int : ℕ → ℕ → ℕ → ℕ
clamp_int value lo hi = if ltb value lo then lo else if ltb hi value then hi else value

-- `confidence` takes no part in the scores and is left out.
pub record BackendScoringInput : Type 0 where
  pub relevance : ℕ
  pub impact : ℕ
  pub novelty : ℕ
  pub best_source_tier : SourceTier

pub record BackendScoringResult : Type 0 where
  pub effective_relevance : ℕ
  pub effective_impact : ℕ
  pub composite : ℕ
  pub best_source_tier : SourceTier
  pub tier_multiplier : ℕ

-- `Math.round` of tenths, half up
unfoldable pub round_tenths : ℕ → ℕ
round_tenths n = (n + 5) / 10

unfoldable pub compute_backend_scoring : BackendScoringInput → BackendScoringResult
unfolding tier_multiplier clamp_int round_tenths
compute_backend_scoring input =
    let m = tier_multiplier input.best_source_tier in
    let relevance = clamp_int ((input.relevance * m) / 100) 0 100 in
    let impact = clamp_int ((input.impact * m) / 100) 0 100 in
    record {
      effective_relevance = relevance;
      effective_impact = impact;
      composite = clamp_int (round_tenths (4 * relevance + 4 * impact + 2 * input.novelty)) 0 100;
      best_source_tier = input.best_source_tier;
      tier_multiplier = m;
    }
