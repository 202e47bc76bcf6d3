-- ===== src/Publication/Once/Release.antt =====
-- The release of a lease, and the exceptions that a `try` catches.
use radar_ia.Prelude.{
  ◌≡◌, refl, ℕ, String, true, Option, none, some, Bool-cases, inl, inr, same_text, subst,
}
use radar_ia.Publication.Types.{PublicationAttempt}
use radar_ia.Publication.Exec.{Result, ok, err, M, attempt}
use radar_ia.Publication.Hoare.{Spec, Keeps, After, spec-bind, spec-attempt, spec-weaken}
use radar_ia.Publication.World.{World, find_publication, find_attempt, update_attempt}
use radar_ia.Publication.Tables.{find_attempt-id, find_attempt-update}
use radar_ia.Publication.Repository.{assert_non_empty}
use radar_ia.Publication.Repository.Lease.{unleased, clear_found, clear_execution_lease}
use radar_ia.Publication.Outcome.{Options, lease_release}
use radar_ia.Publication.Orchestrator.{guarded, release_discord_execution}
use radar_ia.Publication.Once.Guarded.{guarded-Keeps}
use radar_ia.Publication.Once.Invariant.{Inv, is_open_publish}
use radar_ia.Publication.Once.Moves.{Fits-update}
use radar_ia.Publication.Once.Repository.{assert_non_empty-Spec}
use radar_ia.Publication.Once.Lease.{OpenRow}
use radar_ia.Publication.Once.Posted.{Posted}

After-both :
    {A : Type 0} (P : World → Type 0) (r : Result A) (w : World) → After (λ _. P) P r w → P w
After-both P (ok a) w h = h
After-both P (err e) w h = h

-- a caught exception leaves what the method keeps
pub attempt-Keeps :
    {A : Type 0} (P : World → Type 0) (m : M World A) → Keeps P m → Keeps P (attempt m)
attempt-Keeps P m h =
    spec-weaken (attempt m) (spec-attempt m h {T = P}) (λ w p. p) (λ r w p. After-both P r w p)
      (λ w p. p)

-- a predicate that the release of the attempt `j` does not touch
abbrev Unmoved : (World → Type 0) → ℕ → Type 0
Unmoved P j =
    (w : World) (a : PublicationAttempt)
    → find_attempt j w.attempts ≡ some a
    → P w
    → P (record w { attempts = update_attempt j unleased w.attempts })

module _ (P : World → Type 0) (j : ℕ) (move : Unmoved P j) where
  clear_found-keeps :
      (holder : String) (w : World) (r : Option PublicationAttempt)
      → find_attempt j w.attempts ≡ r
      → P w
      → After (λ _. P) P (clear_found j holder r w).0 (clear_found j holder r w).1
  unfolding clear_found
  clear_found-keeps holder w none e p = p
  clear_found-keeps holder w (some a) e p =
      elim (Bool-cases (same_text a.execution_holder_id (some holder))) [
        | inl own ↦ rw own (move w a e p)
        | inr other ↦ rw other p
      ]

  clear_execution_lease-Keeps : (holder : String) → Keeps P (clear_execution_lease j holder)
  unfolding clear_execution_lease
  clear_execution_lease-Keeps holder =
      spec-bind (assert_non_empty holder) _ (assert_non_empty-Spec P holder)
        λ _. record { at = λ w p. clear_found-keeps holder w (find_attempt j w.attempts) refl p }

  -- the release never throws
  release-Spec :
      (o : Options) {T : World → Type 0} → Spec P (release_discord_execution o j) (λ _. P) T
  unfolding release_discord_execution
  release-Spec o {T} =
      let m = guarded o lease_release (clear_execution_lease j o.execution_holder_id) in
      let keeps =
        guarded-Keeps P o lease_release _ (clear_execution_lease-Keeps o.execution_holder_id) in
      spec-weaken (attempt m) (spec-attempt m keeps {T = T}) (λ w p. p)
        (λ r w p. After-both P r w p) (λ w p. p)

Inv-Unmoved : (f : String) (j : ℕ) → Unmoved (Inv f) j
Inv-Unmoved f j w a e v =
    Fits-update f (find_publication f w.publications) w.attempts w.next_id _ j unleased a e
      (record { id = refl; opened = refl; done = refl; keyed = refl }) v

OpenRow-Unmoved : (f : String) (j : ℕ) → Unmoved (OpenRow f j) j
OpenRow-Unmoved f j w a e row = (
  unleased a,
  find_attempt-update j unleased w.attempts a e (find_attempt-id j w.attempts a e),
  (let s : row.0 ≡ a = cc (row.1, e) in subst (λ x. is_open_publish f x ≡ true) s row.2),
)

pub release-Inv : (f : String) (j : ℕ) (o : Options) → Keeps (Inv f) (release_discord_execution o j)
release-Inv f j o = release-Spec (Inv f) j (Inv-Unmoved f j) o

pub release-OpenRow :
    (f : String) (j : ℕ) (o : Options)
    → Keeps (λ w. Inv f w × OpenRow f j w) (release_discord_execution o j)
release-OpenRow f j o =
    release-Spec (λ w. Inv f w × OpenRow f j w) j
      (λ w a e p. (Inv-Unmoved f j w a e p.0, OpenRow-Unmoved f j w a e p.1)) o

pub release-Posted :
    (f : String) (j : ℕ) (o : Options) {T : World → Type 0}
    → Spec (Posted f j) (release_discord_execution o j) (λ _. Posted f j) T
release-Posted f j o =
    release-Spec (Posted f j) j
      (λ w a e p. record {
        tables =
            Fits-update f (find_publication f w.publications) w.attempts w.next_id _ j unleased a e
              (record { id = refl; opened = refl; done = refl; keyed = refl }) p.tables;
        row = OpenRow-Unmoved f j w a e p.row;
        one = p.one;
      })
      o
