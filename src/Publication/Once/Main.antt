-- ===== src/Publication/Once/Main.antt =====
-- The steps of recordMainPublicationSuccess on the attempt whose message Discord has just accepted.
use radar_ia.Prelude.{
  ℕ, ◌≡◌, refl, sym, subst, String, true, false, Option, none, some, arith, str_eq, eq_iff, eq_refl,
  is_blank,
}
use radar_ia.Publication.Types.{
  AttemptStatus, PublicationStatus, pending, partial, FolderPublication, PublicationAttempt,
  publish_key, inconsistent_state,
}
use radar_ia.Publication.Exec.{◌>>=◌}
use radar_ia.Publication.Hoare.{Spec, After, spec-pure, spec-bind}
use radar_ia.Publication.World.{
  World, is_reserved, same_key, find_publication, find_attempt, update_attempt,
}
use radar_ia.Publication.Tables.{
  find_attempt-id, find_attempt-update, find_publication-folder_id, find_publication-put,
}
use radar_ia.Publication.Repository.{
  assert_non_empty, load_publication_by_folder, save_publication, or_throw, resolve_attempt,
  in_folder, assert_transition,
}
use radar_ia.Publication.Repository.Record.{
  save_and_finish, finish_attempt, finish_resolved, write_attempt, to_succeeded, assert_change,
}
use radar_ia.Publication.Once.Invariant.{
  Fits, Inv, sent, has_message, has_main_status, is_open_publish,
}
use radar_ia.Publication.Once.Lease.{OpenRow}
use radar_ia.Publication.Once.Record.{keyed_here, well_keyed}
use radar_ia.Publication.Once.Results.{spec-fact}
use radar_ia.Publication.Once.Posted.{Posted, Waits, open-waits, Fits-posted}

abbrev pub Never : World → Type 0
Never _ = ⊥

pub assert_non_empty-passes :
    (P : World → Type 0) (s : String)
    → is_blank s ≡ false
    → Spec P (assert_non_empty s) (λ _. P) Never
unfolding assert_non_empty
assert_non_empty-passes P s h = record { at = λ w p. rw h p }

-- the reserved attempt `i`, marked as succeeded with the message, in the answer and in the table
abbrev pub ClosedRow : ℕ → String → Option PublicationAttempt → World → Type 0
ClosedRow i m r w =
    (b : PublicationAttempt) × (r ≡ some b)
    × (b.status ≡ AttemptStatus.succeeded)
    × (b.discord_message_id ≡ some m)
    × (find_attempt i w.attempts ≡ some b)

-- the loaded row of a posted folder
abbrev pub At : String → ℕ → FolderPublication → World → Type 0
At f i p w = Posted f i w × (find_publication f w.publications ≡ some p) × Waits p

pub load-Posted :
    (f : String) (i : ℕ)
    → Spec
        (Posted f i)
        (load_publication_by_folder f)
        (λ o w. (p : FolderPublication) × (o ≡ some p) × At f i p w)
        Never
unfolding load_publication_by_folder
load-Posted f i = record {
  at = λ w h.
      let p = open-waits f _ w.attempts w.next_id 0 i h.row.0 h.row.1 h.row.2 h.tables in
      (p.0, p.1, (h, p.1, p.2));
}

pub or_throw-posted :
    (f : String) (i : ℕ) (o : Option FolderPublication)
    → Spec
        (λ w. (p : FolderPublication) × (o ≡ some p) × At f i p w)
        (or_throw inconsistent_state o)
        (At f i)
        Never
or_throw-posted f i none = record { at = λ w h. cc h.1 }
or_throw-posted f i (some q) = record {
  at = λ w h. let s : h.0 ≡ q = cc h.1 in subst (λ x. At f i x w) s h.2;
}

assert_change-pending :
    (P : World → Type 0) (s : PublicationStatus)
    → s ≡ pending
    → Spec P (assert_change s partial) (λ _. P) Never
unfolding assert_transition
assert_change-pending P s e =
    subst (λ t. Spec P (assert_change t partial) (λ _. P) Never) (sym e) (record { at = λ w h. h })

pub assert_change-posted :
    (f : String) (i : ℕ) (p : FolderPublication)
    → Spec (At f i p) (assert_change p.status partial) (λ _. At f i p) Never
assert_change-posted f i p = record {
  at = λ w h. (assert_change-pending (At f i p) p.status h.2.status).at w h;
}

module _ (f : String) (i : ℕ) (p q : FolderPublication) (folder : q.folder_id ≡ p.folder_id)
    (message : has_message (some q) ≡ true) (main : has_main_status (some q) ≡ true) where
  -- the row is saved, the attempt still open
  record Saved (w : World) : Type 0 where
    publication : find_publication f w.publications ≡ some q
    tables : Fits f (some p) w.attempts w.next_id 0
    row : OpenRow f i w
    one : sent f w.calls ≡ 1

  save-posted : Spec (At f i p) (save_publication q) (λ saved w. Saved w × (saved ≡ q)) Never
  unfolding save_publication
  save-posted = record {
    at = λ w h. (
      record {
        publication =
            rw (find_publication-put f q w.publications)
              (rw folder (rw (find_publication-folder_id f w.publications p h.1) (rw (eq_refl f))));
        tables = rw h.1 at h.0.tables;
        row = h.0.row;
        one = h.0.one;
      },
      refl,
    );
  }

  -- the attempt is closed too
  pub record Finished (m : String) (r : Option PublicationAttempt) (w : World) : Type 0 where
    pub fits : Inv f w
    pub publication : find_publication f w.publications ≡ some q
    pub one : sent f w.calls ≡ 1
    pub row : ClosedRow i m r w

  Finished-posted :
      (w : World) (a : PublicationAttempt) (thread : Option String) (m : String)
      → find_attempt a.id w.attempts ≡ some a
      → a.id ≡ i
      → is_open_publish f a ≡ true
      → Saved w
      → Finished m (some (to_succeeded (some m) thread a)) (record w {
        attempts = update_attempt a.id (λ _. to_succeeded (some m) thread a) w.attempts;
      })
  Finished-posted w a thread m e id opened s =
      let keyed : same_key a.idempotency_key (publish_key f) ≡ true = ground arith in
      record {
        fits = rw s.publication (
            rw s.one (
              Fits-posted f p q w.attempts w.next_id a.id a _ e opened message main refl (rw keyed)
                refl s.tables));
        publication = s.publication;
        one = s.one;
        row = (
          to_succeeded (some m) thread a,
          refl,
          refl,
          refl,
          subst
              (λ j.
                find_attempt j
                  (update_attempt a.id (λ _. to_succeeded (some m) thread a) w.attempts)
                ≡ some (to_succeeded (some m) thread a))
              id
              (find_attempt-update a.id (λ _. to_succeeded (some m) thread a) w.attempts a e refl),
        );
      }

  found-posted :
      (w : World) (a : PublicationAttempt) (thread : Option String) (m : String)
      → find_attempt a.id w.attempts ≡ some a
      → a.id ≡ i
      → is_open_publish f a ≡ true
      → Saved w
      → After
          (Finished m)
          Never
          ((in_folder f (some a) >>= finish_resolved (to_succeeded (some m) thread)) w).0
          ((in_folder f (some a) >>= finish_resolved (to_succeeded (some m) thread)) w).1
  unfolding finish_resolved write_attempt
  found-posted w a thread m e id opened s =
      let here = keyed_here f a (well_keyed f w.attempts a e s.tables.keyed) opened in
      let in_f : str_eq a.folder_id f ≡ true = (eq_iff a.folder_id f).1 here in
      let reserved : is_reserved a.status ≡ true = ground arith in
      rw in_f (rw reserved (Finished-posted w a thread m e id opened s))

  finish-posted :
      (thread : Option String) (m : String)
      → Spec Saved
          (finish_attempt f (some i) none (to_succeeded (some m) thread))
          (Finished m)
          Never
  unfolding finish_attempt resolve_attempt
  finish-posted thread m = record {
    at = λ w s.
        let a = s.row.0 in
        let id : a.id ≡ i = find_attempt-id i w.attempts a s.row.1 in
        let e : find_attempt a.id w.attempts ≡ some a =
          subst (λ j. find_attempt j w.attempts ≡ some a) (sym id) s.row.1 in
        rw s.row.1 (found-posted w a thread m e id s.row.2 s);
  }

  pub save_and_finish-posted :
      (thread : Option String) (m : String)
      → Spec
          (At f i p)
          (save_and_finish f (some i) none (to_succeeded (some m) thread) q)
          (λ r w. (r.publication ≡ q) × Finished m r.attempt w)
          Never
  unfolding save_and_finish
  save_and_finish-posted thread m =
      spec-bind (save_publication q) (λ saved. _) save-posted
        λ saved. spec-fact λ e.
          spec-bind (finish_attempt f (some i) none (to_succeeded (some m) thread)) _
            (finish-posted thread m) λ a. spec-pure _ (λ w h. (e, h))
