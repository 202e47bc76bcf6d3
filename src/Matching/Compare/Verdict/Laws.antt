-- ===== src/Matching/Compare/Verdict/Laws.antt =====
-- Conflicts and confidence.
use radar_ia.Prelude.{◌≡◌, refl, true, false, arith}
use radar_ia.Matching.Types.{high, no_confidence}
use radar_ia.Matching.Compare.{Findings}
use radar_ia.Matching.Compare.Verdict.{weigh, judge}

-- every conflict that blocks also makes the events distinct
pub weigh-distinct : (s : Findings) → (weigh s).clearly_distinct ≡ (weigh s).blocking_conflict
unfolding weigh
weigh-distinct s = refl

pub judge-blocking :
    (s : Findings) → (weigh s).blocking_conflict ≡ true → (judge s).0 ≡ no_confidence
unfolding judge
judge-blocking s h = rw h (rw (weigh-distinct s) (rw h refl))

pub judge-high_url :
    (s : Findings) → (weigh s).blocking_conflict ≡ false → s.same_url ≡ true → (judge s).0 ≡ high
unfolding judge
judge-high_url s h url = rw h (rw url (ground arith))
