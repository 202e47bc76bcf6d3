-- ===== src/Publication/Once/Posted.antt =====
-- Between a message that Discord accepted and its record.
use radar_ia.Prelude.{
  ℕ, ◌≡◌, refl, ap, String, true, false, Option, none, some, List, arith, is_some,
}
use radar_ia.Publication.Types.{pending, FolderPublication, PublicationAttempt}
use radar_ia.Publication.World.{World, find_publication, find_attempt, update_attempt}
use radar_ia.Publication.Tables.{bit, count_if-found, count_if-update, Below-update}
use radar_ia.Publication.Once.Invariant.{
  Fits, Inv, sent, has_message, has_main_status, is_pending, is_open_publish, is_ill_keyed,
}
use radar_ia.Publication.Once.Lease.{OpenRow}

-- Discord has the folder's only main message, and the tables do not know it yet.
pub record Posted (f : String) (i : ℕ) (w : World) : Type 0 where
  pub tables : Fits f (find_publication f w.publications) w.attempts w.next_id 0
  pub row : OpenRow f i w
  pub one : sent f w.calls ≡ 1

-- An open publish attempt of the folder: its publication is pending and has no message.
pub record Waits (p : FolderPublication) : Type 0 where
  pub status : p.status ≡ pending
  pub no_message : is_some p.main_message_id ≡ false

pending_row :
    (o : Option FolderPublication)
    → is_pending o ≡ true
    → (has_message o ≡ true → has_main_status o ≡ true)
    → (p : FolderPublication) × (o ≡ some p) × Waits p
pending_row none w s = absurd (cc)
pending_row (some p) w s =
    (p, refl, record { status = ground arith; no_message = ground (arith, s) })

pub open-waits :
    (f : String) (o : Option FolderPublication) (l : List PublicationAttempt) (n k i : ℕ)
    (a : PublicationAttempt)
    → find_attempt i l ≡ some a
    → is_open_publish f a ≡ true
    → Fits f o l n k
    → (p : FolderPublication) × (o ≡ some p) × Waits p
open-waits f o l n k i a e opened v =
    let c = count_if-found (is_open_publish f) i l a e in
    pending_row o (v.waiting (omega (arith, ap bit opened))) v.settled

-- Before the message: with an open publish attempt nothing has been sent.
pub open-unsent :
    (f : String) (i : ℕ) (w : World)
    → Inv f w
    → OpenRow f i w
    → (sent f w.calls ≡ 0) × Fits f (find_publication f w.publications) w.attempts w.next_id 0
open-unsent f i w v row =
    let p = open-waits f _ w.attempts w.next_id _ i row.0 row.1 row.2 v in
    let none_sent : sent f w.calls ≡ 0 = v.unsent (rw p.1 p.2.no_message) in
    (none_sent, rw none_sent at v)

-- The record of the message: the publication has it, and the attempt is closed.
module _ (f : String) (p q : FolderPublication) (l : List PublicationAttempt) (n i : ℕ)
    (a b : PublicationAttempt) (found : find_attempt i l ≡ some a)
    (opened : is_open_publish f a ≡ true) where
  pub Fits-posted :
      has_message (some q) ≡ true
      → has_main_status (some q) ≡ true
      → b.id ≡ a.id
      → is_open_publish f b ≡ false
      → is_ill_keyed f b ≡ is_ill_keyed f a
      → Fits f (some p) l n 0
      → Fits f (some q) (update_attempt i (λ _. b) l) n 1
  Fits-posted m s id shut keyed v =
      let opens = count_if-update (is_open_publish f) i (λ _. b) l a found in
      let ills = count_if-update (is_ill_keyed f) i (λ _. b) l a found in
      record {
        settled = λ _. s;
        once = omega arith;
        unsent = λ u. cc;
        waiting = λ more. absurd (omega (arith, v.single, ap bit opened, ap bit shut));
        single = omega (arith, v.single, ap bit opened, ap bit shut);
        finished = λ _. m;
        keyed = omega (arith, v.keyed, ap bit keyed);
        ids = Below-update n i (λ _. b) l a found id v.ids;
      }
