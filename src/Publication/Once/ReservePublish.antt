-- ===== src/Publication/Once/ReservePublish.antt =====
-- The attempt that reservePublish finds or makes, and the invariant.
use radar_ia.Prelude.{
  ◌≡◌, refl, ℕ, suc, ◌+◌, ◌≤◌, ap, subst, String, Bool, true, false, Option, none, some, arith,
  str_eq, eq_iff, eq_refl, Bool-cases, inl, inr, List, ◌∷◌, ◌==◌,
}
use radar_ia.Publication.Types.{
  publish, FolderPublication, PublicationAttempt, publish_key, ReserveOutcome,
}
use radar_ia.Publication.Hoare.{Spec}
use radar_ia.Publication.World.{World, find_publication, find_attempt, latest, same_key}
use radar_ia.Publication.Tables.{count_if, bit, count_if-zero, latest-passes, find_attempt-latest}
use radar_ia.Publication.Repository.Reserve.{
  new_attempt, create_attempt, active_under, is_pending_publish,
}
use radar_ia.Publication.Once.Invariant.{
  Fits, Inv, sent, is_pending, is_open_publish, is_done_publish, is_ill_keyed,
}
use radar_ia.Publication.Once.Moves.{Fits-append}
use radar_ia.Publication.Once.Record.{well_keyed}
use radar_ia.Publication.Once.Lease.{KeyedRow}

-- the attempt of an outcome
abbrev pub attempt_in : ReserveOutcome → PublicationAttempt
attempt_in (ReserveOutcome.reserved p a) = a
attempt_in (ReserveOutcome.idempotent_hit p a reason) = a

-- the invariant, and for the folder itself an attempt under its key
abbrev pub Reserved : String → String → ReserveOutcome → World → Type 0
Reserved f g out w = Inv f w × (g ≡ f → KeyedRow f (attempt_in out).id w)

-- for the folder itself, no publish attempt is open
abbrev pub Fresh : String → String → World → Type 0
Fresh f g w = g ≡ f → count_if (is_open_publish f) w.attempts ≡ 0

pub keyed_row :
    (f g : String) (t : PublicationAttempt → Bool) (w : World) (a : PublicationAttempt)
    → ((b : PublicationAttempt) → t b ≡ true → same_key b.idempotency_key (publish_key g) ≡ true)
    → latest t w.attempts ≡ some a
    → Inv f w
    → g ≡ f
    → KeyedRow f a.id w
keyed_row f g t w a imp e v gf = (
  a,
  find_attempt-latest w.next_id t w.attempts a v.ids e,
  subst (λ x. same_key a.idempotency_key (publish_key x) ≡ true) gf
      (imp a (latest-passes t w.attempts a e)),
)

keyed_publish :
    (f : String) (a : PublicationAttempt)
    → is_ill_keyed f a ≡ false
    → is_pending_publish f a ≡ true
    → same_key a.idempotency_key (publish_key f) ≡ true
keyed_publish f a k p = ground arith

pub waiting_row :
    (f g : String) (w : World) (a : PublicationAttempt)
    → latest (is_pending_publish g) w.attempts ≡ some a
    → Inv f w
    → g ≡ f
    → KeyedRow f a.id w
waiting_row f g w a e v gf =
    let found = find_attempt-latest w.next_id (is_pending_publish g) w.attempts a v.ids e in
    let passes : is_pending_publish f a ≡ true =
      subst (λ x. is_pending_publish x a ≡ true) gf
        (latest-passes (is_pending_publish g) w.attempts a e) in
    (a, found, keyed_publish f a (well_keyed f w.attempts a found v.keyed) passes)

pub active-Fresh :
    (f g : String) (w : World)
    → latest (active_under (publish_key g)) w.attempts ≡ none
    → Fresh f g w
active-Fresh f g w e gf =
    count_if-zero (is_open_publish f) (active_under (publish_key f)) w.attempts
      (λ a o. ground arith)
      (subst (λ x. latest (active_under (publish_key x)) w.attempts ≡ none) gf e)

-- an attempt that opens
Fits-open :
    (f : String) (o : Option FolderPublication) (l : List PublicationAttempt) (n k : ℕ)
    (a : PublicationAttempt)
    → a.id ≡ n
    → is_pending o ≡ true
    → count_if (is_open_publish f) l ≡ 0
    → is_done_publish f a ≡ false
    → is_ill_keyed f a ≡ false
    → Fits f o l n k
    → Fits f o (a ∷ l) (suc n) k
Fits-open f o l n k a i p c d w v = record {
  settled = v.settled;
  once = v.once;
  unsent = v.unsent;
  waiting = λ more. p;
  single = opens (is_open_publish f a);
  finished = λ more. v.finished (omega (arith, ap bit d));
  keyed = omega (arith, ap bit w, v.keyed);
  ids = (omega arith, rw i v.ids);
}
  where
    opens : (b : Bool) → bit b + count_if (is_open_publish f) l ≤ 1
    opens true = omega (arith, c)
    opens false = omega (arith, c)

module _ (f g : String) (analysis : Option String) where
  created-Fits :
      (w : World) (number : ℕ)
      → Fresh f g w
      → (g ≡ f → is_pending (find_publication f w.publications) ≡ true)
      → Inv f w
      → Fits f
          (find_publication f w.publications)
          (new_attempt w.next_id g publish number (publish_key g) analysis none ∷ w.attempts)
          (suc w.next_id)
          (sent f w.calls)
  created-Fits w number fresh pend v = elim (Bool-cases (str_eq g f)) [
    | inl here ↦
        let gf = (eq_iff g f).0 here in
        Fits-open f (find_publication f w.publications) w.attempts w.next_id _ _ refl (pend gf)
          (fresh gf) (rw here refl) (rw here refl) v
    | inr elsewhere ↦
        Fits-append f (find_publication f w.publications) w.attempts w.next_id _ _ refl
          (rw elsewhere refl) (rw elsewhere refl) (rw elsewhere refl) v
  ]

  pub create_publish-Spec :
      (q : FolderPublication) (number : ℕ)
      → Spec
          (λ w.
            Inv f w × Fresh f g w × (g ≡ f → is_pending (find_publication f w.publications) ≡ true))
          (create_attempt g publish number (publish_key g) analysis none)
          (λ a. Reserved f g (ReserveOutcome.reserved q a))
          (Inv f)
  unfolding create_attempt find_attempt
  create_publish-Spec q number = record {
    at = λ w h. (
      created-Fits w number h.1 h.2 h.0,
      λ gf.
          let own : (w.next_id == w.next_id) ≡ true = ground arith in
          (
            new_attempt w.next_id g publish number (publish_key g) analysis none,
            rw own refl,
            subst (λ x. same_key (publish_key g) (publish_key x) ≡ true) gf (eq_refl g),
          ),
    );
  }
