-- ===== src/Analysis/Scoring/Best.antt =====
-- resolveBestSourceTier against the order of the ranks.
use mathlib.Core.List.{Memᴰ}
use radar_ia.Prelude.{
  ◌≤◌, ◌≡◌, ◌⊎◌, inl, inr, refl, true, false, List, [], ◌∷◌, All, arith, Bool-cases,
}
use radar_ia.Analysis.Types.{SourceTier}
use radar_ia.Analysis.Scoring.{
  tier_rank, is_tier_strictly_higher, best_tier_from, resolve_best_source_tier,
}

-- `t` is one of the list, and no tier of the list ranks above it.
pub record IsBest (t : SourceTier) (l : List SourceTier) : Type 0 where
  pub member : Memᴰ t l
  pub top : All (λ u. tier_rank u ≤ tier_rank t) l

-- What the loop keeps: the result is the best so far or a later one, and ranks above both.
record Loop (best r : SourceTier) (l : List SourceTier) : Type 0 where
  found : (r ≡ best) ⊎ Memᴰ r l
  above : tier_rank best ≤ tier_rank r
  top : All (λ u. tier_rank u ≤ tier_rank r) l

keep :
    {best candidate r : SourceTier} {l : List SourceTier}
    → tier_rank candidate ≤ tier_rank best
    → Loop best r l
    → Loop best r (candidate ∷ l)
keep {best} {candidate} {r} {l} h s = record {
  found = elim s.found [ inl e ↦ inl e | inr m ↦ inr (Memᴰ.tail m) ];
  above = s.above;
  top = (omega (arith, s.above), s.top);
}

replace :
    {best candidate r : SourceTier} {l : List SourceTier}
    → tier_rank best ≤ tier_rank candidate
    → Loop candidate r l
    → Loop best r (candidate ∷ l)
replace h s = record {
  found = elim s.found [ inl e ↦ inr (Memᴰ.head e) | inr m ↦ inr (Memᴰ.tail m) ];
  above = omega (arith, s.above);
  top = (s.above, s.top);
}

higher-rank : (c b : SourceTier) → is_tier_strictly_higher c b ≡ true → tier_rank b ≤ tier_rank c
unfolding is_tier_strictly_higher
higher-rank c b h = ground arith

not_higher-rank :
    (c b : SourceTier) → is_tier_strictly_higher c b ≡ false → tier_rank c ≤ tier_rank b
unfolding is_tier_strictly_higher
not_higher-rank c b h = ground arith

best_tier_from_lem : (best : SourceTier) (l : List SourceTier) → Loop best (best_tier_from best l) l
unfolding best_tier_from
best_tier_from_lem best [] = record { found = inl refl; above = omega arith; top = tt }
best_tier_from_lem best (c ∷ rest) = elim (Bool-cases (is_tier_strictly_higher c best)) [
  | inl e ↦ rw e (replace (higher-rank c best e) (best_tier_from_lem c rest))
  | inr e ↦ rw e (keep (not_higher-rank c best e) (best_tier_from_lem best rest))
]

-- Of a folder with at least one article, the resolved tier is the tier of one of its articles and
-- none ranks above it.
pub resolve_best_source_tier-IsBest :
    (t : SourceTier) (rest : List SourceTier)
    → IsBest (resolve_best_source_tier (t ∷ rest)) (t ∷ rest)
unfolding resolve_best_source_tier
resolve_best_source_tier-IsBest t rest =
    let s = best_tier_from_lem t rest in
    record {
      member = elim s.found [ inl e ↦ Memᴰ.head e | inr m ↦ Memᴰ.tail m ];
      top = (s.above, s.top);
    }
