-- ===== src/Publication/Once/Moves.antt =====
-- The moves of the invariant: a write to one attempt, a write to the publication, a new attempt.
use radar_ia.Prelude.{
  ap, ℕ, suc, ◌+◌, ◌≡◌, String, Bool, true, false, Option, some, List, ◌∷◌, arith,
}
use radar_ia.Publication.Types.{FolderPublication, PublicationAttempt}
use radar_ia.Publication.World.{find_attempt, update_attempt}
use radar_ia.Publication.Tables.{count_if, bit, count_if-update, Below-update}
use radar_ia.Publication.Once.Invariant.{
  Fits, has_message, has_main_status, is_pending, is_open_publish, is_done_publish, is_ill_keyed,
}

-- A row that counts as before.
pub record SameRow (f : String) (a b : PublicationAttempt) : Type 0 where
  pub id : b.id ≡ a.id
  pub opened : is_open_publish f b ≡ is_open_publish f a
  pub done : is_done_publish f b ≡ is_done_publish f a
  pub keyed : is_ill_keyed f b ≡ is_ill_keyed f a

module _ (f : String) (p : Option FolderPublication) (l : List PublicationAttempt) (n k i : ℕ)
    (h : PublicationAttempt → PublicationAttempt) (a : PublicationAttempt)
    (found : find_attempt i l ≡ some a) where
  same_count :
      (c : PublicationAttempt → Bool)
      → c (h a) ≡ c a
      → count_if c (update_attempt i h l) ≡ count_if c l
  same_count c e =
      let s = count_if-update c i h l a found in
      let t : count_if c (update_attempt i h l) + bit (c a) ≡ count_if c l + bit (c a) =
        rw (ap bit e) at s in
      omega arith

  pub Fits-update : SameRow f a (h a) → Fits f p l n k → Fits f p (update_attempt i h l) n k
  Fits-update s v = record {
    settled = v.settled;
    once = v.once;
    unsent = v.unsent;
    waiting = rw (same_count (is_open_publish f) s.opened) v.waiting;
    single = rw (same_count (is_open_publish f) s.opened) v.single;
    finished = rw (same_count (is_done_publish f) s.done) v.finished;
    keyed = rw (same_count (is_ill_keyed f) s.keyed) v.keyed;
    ids = Below-update n i h l a found s.id v.ids;
  }

-- A publication with the same message and the same standing.
pub Fits-publication :
    (f : String) (p q : Option FolderPublication) (l : List PublicationAttempt) (n k : ℕ)
    → has_message q ≡ has_message p
    → (has_message q ≡ true → has_main_status q ≡ true)
    → is_pending q ≡ is_pending p
    → Fits f p l n k
    → Fits f q l n k
Fits-publication f p q l n k m s w v = record {
  settled = s;
  once = v.once;
  unsent = rw m v.unsent;
  waiting = rw w v.waiting;
  single = v.single;
  finished = rw m v.finished;
  keyed = v.keyed;
  ids = v.ids;
}

-- A new attempt that is no publish of the folder.
pub Fits-append :
    (f : String) (p : Option FolderPublication) (l : List PublicationAttempt) (n k : ℕ)
    (a : PublicationAttempt)
    → a.id ≡ n
    → is_open_publish f a ≡ false
    → is_done_publish f a ≡ false
    → is_ill_keyed f a ≡ false
    → Fits f p l n k
    → Fits f p (a ∷ l) (suc n) k
Fits-append f p l n k a i o d w v = record {
  settled = v.settled;
  once = v.once;
  unsent = v.unsent;
  waiting = λ open_one. v.waiting (omega (arith, ap bit o));
  single = omega (arith, ap bit o, v.single);
  finished = λ done_one. v.finished (omega (arith, ap bit d));
  keyed = omega (arith, ap bit w, v.keyed);
  ids = (omega arith, rw i v.ids);
}
