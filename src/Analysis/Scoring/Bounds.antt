-- ===== src/Analysis/Scoring/Bounds.antt =====
-- Bounds and monotonicity of the scores of analysis-scoring.ts.
use radar_ia.Prelude.{◌+◌, ◌*◌, ◌/◌, ◌≤◌, ℕ, arith}
use radar_ia.Analysis.Types.{SourceTier}
use radar_ia.Analysis.Scoring.{
  tier_multiplier, tier_rank, clamp_int, round_tenths, BackendScoringInput, compute_backend_scoring,
}

-- Every effective score and the composite lie in 0 to 100, whatever the proposal's scores.
pub compute_backend_scoring_bounds :
    (input : BackendScoringInput)
    → let r = compute_backend_scoring input in
      (r.effective_relevance ≤ 100) × (r.effective_impact ≤ 100) × (r.composite ≤ 100)
unfolding compute_backend_scoring
compute_backend_scoring_bounds input = ground arith

clamp_int_mono : (a b lo hi : ℕ) → a ≤ b → lo ≤ hi → clamp_int a lo hi ≤ clamp_int b lo hi
unfolding clamp_int
clamp_int_mono a b lo hi h k = ground arith

mul_mono : (a b m n : ℕ) → a ≤ b → m ≤ n → a * m ≤ b * n
mul_mono a b m n h k = grind arith

tier_multiplier_mono :
    (t u : SourceTier) → tier_rank t ≤ tier_rank u → tier_multiplier t ≤ tier_multiplier u
unfolding tier_multiplier tier_rank
tier_multiplier_mono t u h = ground arith

div_mono : (a b : ℕ) → a ≤ b → a / 100 ≤ b / 100
div_mono a b h = omega arith

-- An input that is at least as good in every score and in its tier.
pub record NoBetter (i j : BackendScoringInput) : Type 0 where
  pub relevance : i.relevance ≤ j.relevance
  pub impact : i.impact ≤ j.impact
  pub novelty : i.novelty ≤ j.novelty
  pub tier : tier_rank i.best_source_tier ≤ tier_rank j.best_source_tier

effective_mono :
    (a b : ℕ) (t u : SourceTier)
    → a ≤ b
    → tier_rank t ≤ tier_rank u
    → clamp_int ((a * tier_multiplier t) / 100) 0 100
      ≤ clamp_int ((b * tier_multiplier u) / 100) 0 100
effective_mono a b t u h k =
    clamp_int_mono _ _ 0 100 (div_mono _ _ (mul_mono a b _ _ h (tier_multiplier_mono t u k)))
      (omega arith)

composite_mono :
    (r i n r' i' n' : ℕ)
    → r ≤ r'
    → i ≤ i'
    → n ≤ n'
    → clamp_int (round_tenths (4 * r + 4 * i + 2 * n)) 0 100
      ≤ clamp_int (round_tenths (4 * r' + 4 * i' + 2 * n')) 0 100
unfolding round_tenths
composite_mono r i n r' i' n' p q s = clamp_int_mono _ _ 0 100 (omega arith) (omega arith)

-- Better raw scores from a tier at least as high never lower any effective score or the composite.
pub compute_backend_scoring_mono :
    (i j : BackendScoringInput)
    → NoBetter i j
    → let r = compute_backend_scoring i in
      let s = compute_backend_scoring j in
      (r.effective_relevance ≤ s.effective_relevance)
      × (r.effective_impact ≤ s.effective_impact)
      × (r.composite ≤ s.composite)
unfolding compute_backend_scoring
compute_backend_scoring_mono i j h =
    let relevance =
      effective_mono i.relevance j.relevance i.best_source_tier j.best_source_tier h.relevance
        h.tier in
    let impact =
      effective_mono i.impact j.impact i.best_source_tier j.best_source_tier h.impact h.tier in
    (relevance, impact, composite_mono _ _ _ _ _ _ relevance impact h.novelty)
