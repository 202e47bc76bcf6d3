-- ===== src/Publication/Once/Repository.antt =====
-- The checks, loads and saves of the repository, and the invariant.
use radar_ia.Prelude.{
  ℕ, ◌≡◌, refl, String, true, Option, none, some, List, str_eq, eq_iff, eq_refl, Bool-cases, inl,
  inr,
}
use radar_ia.Publication.Types.{
  IdempotencyKey, PublicationStatus, is_allowed, FolderPublication, PublicationAttempt,
  PersistenceErrorCode,
}
use radar_ia.Publication.Hoare.{Spec, Keeps, spec-pure, spec-throw, spec-require}
use radar_ia.Publication.World.{World, find_publication, put_publication}
use radar_ia.Publication.Tables.{find_publication-put, find_publication-folder_id}
use radar_ia.Publication.Repository.{
  assert_idempotency_key, assert_transition, assert_non_empty, load_publication_by_folder,
  save_publication, or_throw,
}
use radar_ia.Publication.Once.Invariant.{Fits, Inv, has_message, has_main_status, is_pending}
use radar_ia.Publication.Once.Moves.{Fits-publication}

-- the invariant, with the row that was loaded
abbrev pub Loaded : String → String → Option FolderPublication → World → Type 0
Loaded f g o w = Inv f w × (find_publication g w.publications ≡ o)

pub assert_non_empty-Spec : (P : World → Type 0) (s : String) → Keeps P (assert_non_empty s)
unfolding assert_non_empty
assert_non_empty-Spec P s = spec-require _ _ (λ _ w h. h) (λ w h. h)

pub assert_idempotency_key-Spec :
    (P : World → Type 0) (key : IdempotencyKey) → Keeps P (assert_idempotency_key key)
unfolding assert_idempotency_key
assert_idempotency_key-Spec P key = spec-require _ _ (λ _ w h. h) (λ w h. h)

pub assert_transition-Spec :
    (P : World → Type 0) (from to : PublicationStatus)
    → Spec P (assert_transition from to) (λ _ w. P w × (is_allowed from to ≡ true)) P
unfolding assert_transition
assert_transition-Spec P from to = spec-require _ _ (λ e w h. (h, e)) (λ w h. h)

pub load-Spec : (f g : String) → Spec (Inv f) (load_publication_by_folder g) (Loaded f g) (Inv f)
unfolding load_publication_by_folder
load-Spec f g = record { at = λ w h. (h, refl) }

pub or_throw-Spec :
    (f g : String) (code : PersistenceErrorCode) (o : Option FolderPublication)
    → Spec (Loaded f g o) (or_throw code o) (λ p. Loaded f g (some p)) (Inv f)
or_throw-Spec f g code none = spec-throw _ (λ w h. h.0)
or_throw-Spec f g code (some p) = spec-pure p (λ w h. h)

abbrev pub IsSettled : FolderPublication → Type 0
IsSettled p = has_message (some p) ≡ true → has_main_status (some p) ≡ true

-- A row in place of another of the same message and the same standing.
pub record SameStanding (p q : FolderPublication) : Type 0 where
  pub message : has_message (some q) ≡ has_message (some p)
  pub settled : IsSettled q
  pub waiting : is_pending (some q) ≡ is_pending (some p)

module _ (f g : String) (p q : FolderPublication) (folder : q.folder_id ≡ p.folder_id)
    (same : IsSettled p → SameStanding p q) where
  put-Fits :
      (ps : List FolderPublication) (l : List PublicationAttempt) (n k : ℕ)
      → find_publication g ps ≡ some p
      → Fits f (find_publication f ps) l n k
      → Fits f (find_publication f (put_publication q ps)) l n k
  put-Fits ps l n k e v =
      rw (find_publication-put f q ps) (elim (Bool-cases (str_eq q.folder_id f)) [
        | inl at_f ↦
            let fg : g ≡ f =
              cc (find_publication-folder_id g ps p e, (eq_iff q.folder_id f).0 at_f) in
            let here : find_publication f ps ≡ some p = rw fg at e in
            let v' = rw here at v in
            let s = same v'.settled in
            rw at_f (Fits-publication f (some p) (some q) l n k s.message s.settled s.waiting v')
        | inr elsewhere ↦ rw elsewhere v
      ])

  pub save-Spec : Spec (Loaded f g (some p)) (save_publication q) (λ _. Loaded f g (some q)) (Inv f)
  unfolding save_publication
  save-Spec = record {
    at = λ w h. (
      put-Fits w.publications w.attempts w.next_id _ h.1 h.0,
      rw (find_publication-put g q w.publications)
          (rw folder (rw (find_publication-folder_id g w.publications p h.1) (rw (eq_refl g)))),
    );
  }
