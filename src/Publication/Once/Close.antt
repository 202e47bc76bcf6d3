-- ===== src/Publication/Once/Close.antt =====
-- Methods that only read, and rows that close.
use radar_ia.Prelude.{
  ◌≡◌, refl, ℕ, ◌≤◌, ap, String, true, false, Option, none, some, arith, str_eq, eq_iff, Bool-cases,
  inl, inr, List,
}
use radar_ia.Publication.Types.{FolderPublication, PublicationAttempt, PersistenceErrorCode}
use radar_ia.Publication.Hoare.{Spec, After, spec-pure, spec-throw}
use radar_ia.Publication.World.{World, find_publication, find_attempt, update_attempt}
use radar_ia.Publication.Tables.{count_if, bit, count_if-update, Below-update}
use radar_ia.Publication.Repository.{
  load_publication_by_folder, or_throw, resolve_attempt, in_folder,
}
use radar_ia.Publication.Once.Invariant.{
  Fits, has_message, has_main_status, is_open_publish, is_done_publish, is_ill_keyed,
}

-- methods that only read, with what they leave known
module _ (P : World → Type 0) (g : String) where
  pub load-with :
      Spec P (load_publication_by_folder g) (λ o w. P w × (find_publication g w.publications ≡ o)) P
  unfolding load_publication_by_folder
  load-with = record { at = λ w h. (h, refl) }

  pub or_throw-with :
      (code : PersistenceErrorCode) (o : Option FolderPublication)
      → Spec
          (λ w. P w × (find_publication g w.publications ≡ o))
          (or_throw code o)
          (λ p w. P w × (find_publication g w.publications ≡ some p))
          P
  or_throw-with code none = spec-throw _ (λ w h. h.0)
  or_throw-with code (some p) = spec-pure p (λ w h. h)

  in_folder-with :
      (i : ℕ) (w : World) (r : Option PublicationAttempt)
      → find_attempt i w.attempts ≡ r
      → P w
      → After
          (λ a w. P w × (find_attempt i w.attempts ≡ some a) × (a.folder_id ≡ g))
          P
          (in_folder g r w).0
          (in_folder g r w).1
  in_folder-with i w none e h = h
  in_folder-with i w (some a) e h = elim (Bool-cases (str_eq a.folder_id g)) [
    | inl here ↦ rw here (h, e, (eq_iff a.folder_id g).0 here)
    | inr elsewhere ↦ rw elsewhere h
  ]

  pub resolve_attempt-with :
      (i : ℕ)
      → Spec P
          (resolve_attempt g (some i) none)
          (λ a w. P w × (find_attempt i w.attempts ≡ some a) × (a.folder_id ≡ g))
          P
  unfolding resolve_attempt
  resolve_attempt-with i = record {
    at = λ w h. in_folder-with i w (find_attempt i w.attempts) refl h;
  }

-- a row that closes, or was closed before
module _ (f : String) (o : Option FolderPublication) (l : List PublicationAttempt) (n k i : ℕ)
    (a b : PublicationAttempt) (found : find_attempt i l ≡ some a) (id : b.id ≡ a.id)
    (shut : is_open_publish f b ≡ false) (undone : is_done_publish f a ≡ false)
    (undone' : is_done_publish f b ≡ false) (keyed : is_ill_keyed f b ≡ is_ill_keyed f a) where
  pub Fits-close : Fits f o l n k → Fits f o (update_attempt i (λ _. b) l) n k
  Fits-close v =
      let opens = count_if-update (is_open_publish f) i (λ _. b) l a found in
      let dones = count_if-update (is_done_publish f) i (λ _. b) l a found in
      let ills = count_if-update (is_ill_keyed f) i (λ _. b) l a found in
      record {
        settled = v.settled;
        once = v.once;
        unsent = v.unsent;
        waiting = λ more. v.waiting (omega (arith, ap bit shut));
        single = omega (arith, v.single, ap bit shut);
        finished = λ more. v.finished (omega (arith, ap bit undone, ap bit undone'));
        keyed = omega (arith, v.keyed, ap bit keyed);
        ids = Below-update n i (λ _. b) l a found id v.ids;
      }

  pub closed_count :
      count_if (is_open_publish f) l ≤ 1
      → is_open_publish f a ≡ true
      → count_if (is_open_publish f) (update_attempt i (λ _. b) l) ≡ 0
  closed_count single opened =
      omega (
        arith,
        count_if-update (is_open_publish f) i (λ _. b) l a found,
        ap bit opened,
        ap bit shut,
      )

-- With no open publish attempt the status of a publication without message is free.
pub Fits-free :
    (f : String) (o q : Option FolderPublication) (l : List PublicationAttempt) (n k : ℕ)
    → count_if (is_open_publish f) l ≡ 0
    → has_message q ≡ has_message o
    → (has_message q ≡ true → has_main_status q ≡ true)
    → Fits f o l n k
    → Fits f q l n k
Fits-free f o q l n k c m s v = record {
  settled = s;
  once = v.once;
  unsent = rw m v.unsent;
  waiting = λ more. absurd (omega arith);
  single = v.single;
  finished = rw m v.finished;
  keyed = v.keyed;
  ids = v.ids;
}
