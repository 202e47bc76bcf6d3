-- ===== src/Matching/Compare/Natures.antt =====
-- Natures that exclude each other.
use radar_ia.Prelude.{◌≡◌, refl}
use radar_ia.Matching.Types.{
  AnnouncementNature, launch, update, acquisition, paper, denial, availability, correction, other,
}
use radar_ia.Matching.Compare.{natures_clash, incompatible_pair}

-- the test agrees with the set of pairs, in both orders
abbrev pub Agree : AnnouncementNature → AnnouncementNature → Type 0
Agree a b = (natures_clash a b ≡ incompatible_pair a b) × (natures_clash b a ≡ natures_clash a b)

-- A pair of natures is incompatible exactly if it is in the set of pairs, and then in both orders: no
-- earlier exception of the test takes a pair out of the set.
pub natures_clash-pair : (a b : AnnouncementNature) → Agree a b
unfolding natures_clash
natures_clash-pair launch b = elim b as (λ k. Agree launch k) [
  | launch ↦ (refl, refl)
  | update ↦ (refl, refl)
  | acquisition ↦ (refl, refl)
  | paper ↦ (refl, refl)
  | denial ↦ (refl, refl)
  | availability ↦ (refl, refl)
  | correction ↦ (refl, refl)
  | other ↦ (refl, refl)
]
natures_clash-pair update b = elim b as (λ k. Agree update k) [
  | launch ↦ (refl, refl)
  | update ↦ (refl, refl)
  | acquisition ↦ (refl, refl)
  | paper ↦ (refl, refl)
  | denial ↦ (refl, refl)
  | availability ↦ (refl, refl)
  | correction ↦ (refl, refl)
  | other ↦ (refl, refl)
]
natures_clash-pair acquisition b = elim b as (λ k. Agree acquisition k) [
  | launch ↦ (refl, refl)
  | update ↦ (refl, refl)
  | acquisition ↦ (refl, refl)
  | paper ↦ (refl, refl)
  | denial ↦ (refl, refl)
  | availability ↦ (refl, refl)
  | correction ↦ (refl, refl)
  | other ↦ (refl, refl)
]
natures_clash-pair paper b = elim b as (λ k. Agree paper k) [
  | launch ↦ (refl, refl)
  | update ↦ (refl, refl)
  | acquisition ↦ (refl, refl)
  | paper ↦ (refl, refl)
  | denial ↦ (refl, refl)
  | availability ↦ (refl, refl)
  | correction ↦ (refl, refl)
  | other ↦ (refl, refl)
]
natures_clash-pair denial b = elim b as (λ k. Agree denial k) [
  | launch ↦ (refl, refl)
  | update ↦ (refl, refl)
  | acquisition ↦ (refl, refl)
  | paper ↦ (refl, refl)
  | denial ↦ (refl, refl)
  | availability ↦ (refl, refl)
  | correction ↦ (refl, refl)
  | other ↦ (refl, refl)
]
natures_clash-pair availability b = elim b as (λ k. Agree availability k) [
  | launch ↦ (refl, refl)
  | update ↦ (refl, refl)
  | acquisition ↦ (refl, refl)
  | paper ↦ (refl, refl)
  | denial ↦ (refl, refl)
  | availability ↦ (refl, refl)
  | correction ↦ (refl, refl)
  | other ↦ (refl, refl)
]
natures_clash-pair correction b = elim b as (λ k. Agree correction k) [
  | launch ↦ (refl, refl)
  | update ↦ (refl, refl)
  | acquisition ↦ (refl, refl)
  | paper ↦ (refl, refl)
  | denial ↦ (refl, refl)
  | availability ↦ (refl, refl)
  | correction ↦ (refl, refl)
  | other ↦ (refl, refl)
]
natures_clash-pair other b = elim b as (λ k. Agree other k) [
  | launch ↦ (refl, refl)
  | update ↦ (refl, refl)
  | acquisition ↦ (refl, refl)
  | paper ↦ (refl, refl)
  | denial ↦ (refl, refl)
  | availability ↦ (refl, refl)
  | correction ↦ (refl, refl)
  | other ↦ (refl, refl)
]
