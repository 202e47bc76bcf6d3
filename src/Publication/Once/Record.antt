-- ===== src/Publication/Once/Record.antt =====
-- The writes that mark an attempt as succeeded, and the invariant.
use radar_ia.Prelude.{
  subst, ℕ, ◌≡◌, ◌≢◌, refl, ap, sym, ◌∙◌, String, true, false, Option, none, some, List, arith,
  str_eq, eq_iff, Bool-cases, inl, inr,
}
use radar_ia.Publication.Types.{
  AttemptStatus, FolderPublication, PublicationAttempt, IdempotencyKey, publish_key,
  inconsistent_state,
}
use radar_ia.Publication.Exec.{pure}
use radar_ia.Publication.Hoare.{Spec, spec-pure, spec-throw, spec-if, spec-weaken, spec-bind, After}
use radar_ia.Publication.World.{
  World, is_reserved, same_key, find_publication, find_attempt, latest,
}
use radar_ia.Publication.Tables.{
  count_if, bit, count_if-found, find_attempt-id, find_attempt-latest, latest-passes,
}
use radar_ia.Publication.Repository.{
  assert_idempotency_key, or_throw, resolve_attempt, in_folder, is_active_under,
}
use radar_ia.Publication.Repository.Record.{finish_resolved, finish_attempt, write_attempt}
use radar_ia.Publication.Once.Invariant.{
  Fits, Inv, has_message, has_main_status, is_pending, is_open_publish, is_ill_keyed,
}
use radar_ia.Publication.Once.Moves.{SameRow, Fits-update}
use radar_ia.Publication.Once.Repository.{assert_idempotency_key-Spec, Loaded}

-- The attempt stands in the table and belongs to the folder.
abbrev pub Found : String → PublicationAttempt → World → Type 0
Found g a w = (find_attempt a.id w.attempts ≡ some a) × (a.folder_id ≡ g)

-- A row marked as succeeded, all else that identifies it kept.
pub record Succeeds (a b : PublicationAttempt) : Type 0 where
  pub id : b.id ≡ a.id
  pub folder : b.folder_id ≡ a.folder_id
  pub kind : b.kind ≡ a.kind
  pub key : b.idempotency_key ≡ a.idempotency_key
  pub status : b.status ≡ AttemptStatus.succeeded

in_folder-Spec :
    (f g : String) (o : Option FolderPublication) (i : ℕ) (w : World)
    (r : Option PublicationAttempt)
    → find_attempt i w.attempts ≡ r
    → Loaded f g o w
    → After
        (λ a w. Loaded f g o w × Found g a w)
        (Loaded f g o)
        (in_folder g r w).0
        (in_folder g r w).1
in_folder-Spec f g o i w none e h = h
in_folder-Spec f g o i w (some a) e h = elim (Bool-cases (str_eq a.folder_id g)) [
  | inl here ↦ rw here (
    h,
    (
      subst (λ j. find_attempt j w.attempts ≡ some a) (sym (find_attempt-id i w.attempts a e)) e,
      (eq_iff a.folder_id g).0 here,
    ),
  )
  | inr elsewhere ↦ rw elsewhere h
]

or_throw-latest-Spec :
    (f g : String) (o : Option FolderPublication) (key : IdempotencyKey) (w : World)
    (r : Option PublicationAttempt)
    → latest (is_active_under g key) w.attempts ≡ r
    → Loaded f g o w
    → After
        (λ a w. Loaded f g o w × Found g a w)
        (Loaded f g o)
        (or_throw inconsistent_state r w).0
        (or_throw inconsistent_state r w).1
or_throw-latest-Spec f g o key w none e h = h
or_throw-latest-Spec f g o key w (some a) e h =
    let passes = latest-passes (is_active_under g key) w.attempts a e in
    (
      h,
      (
        find_attempt-latest w.next_id (is_active_under g key) w.attempts a h.0.ids e,
        ground (arith, eq_iff a.folder_id g),
      ),
    )

pub resolve_attempt-Spec :
    (f g : String) (o : Option FolderPublication) (i : Option ℕ) (key : Option IdempotencyKey)
    → Spec
        (Loaded f g o)
        (resolve_attempt g i key)
        (λ a w. Loaded f g o w × Found g a w)
        (Loaded f g o)
unfolding resolve_attempt
resolve_attempt-Spec f g o (some i) key = record {
  at = λ w h. in_folder-Spec f g o i w (find_attempt i w.attempts) refl h;
}
resolve_attempt-Spec f g o none (some key) =
    spec-bind (assert_idempotency_key key) _ (assert_idempotency_key-Spec _ key) (λ _. record {
      at = λ w h.
          or_throw-latest-Spec f g o key w (latest (is_active_under g key) w.attempts) refl h;
    })
resolve_attempt-Spec f g o none none = spec-throw _ (λ w h. h)

pub keyed_here :
    (f : String) (a : PublicationAttempt)
    → is_ill_keyed f a ≡ false
    → is_open_publish f a ≡ true
    → a.folder_id ≡ f
keyed_here f a k o = ground (arith, eq_iff a.folder_id f)

pub well_keyed :
    (f : String) (l : List PublicationAttempt) (a : PublicationAttempt)
    → find_attempt a.id l ≡ some a
    → count_if (is_ill_keyed f) l ≡ 0
    → is_ill_keyed f a ≡ false
well_keyed f l a found k =
    let c = count_if-found (is_ill_keyed f) a.id l a found in
    elim (Bool-cases (is_ill_keyed f a)) [
      | inl ill ↦ absurd (omega (arith, ap bit ill))
      | inr well ↦ well
    ]

pending_unsettled : (p : Option FolderPublication) → is_pending p ≡ true → has_main_status p ≢ true
pending_unsettled p w s = ground arith

-- Where the folder has its message, none of its publish attempts is open.
not_open :
    (f g : String) (p : Option FolderPublication) (l : List PublicationAttempt) (n k : ℕ)
    (a : PublicationAttempt)
    → find_attempt a.id l ≡ some a
    → a.folder_id ≡ g
    → (g ≡ f → has_message p ≡ true)
    → Fits f p l n k
    → is_open_publish f a ≡ false
not_open f g p l n k a found folder message v = elim (Bool-cases (is_open_publish f a)) [
  | inl opened ↦
      let here = keyed_here f a (well_keyed f l a found v.keyed) opened in
      let m = message (sym folder ∙ here) in
      let c = count_if-found (is_open_publish f) a.id l a found in
      let w = v.waiting (omega (arith, ap bit opened)) in
      let s = v.settled m in absurd (pending_unsettled p w s)
  | inr shut ↦ shut
]

same_row :
    (f : String) (a b : PublicationAttempt)
    → Succeeds a b
    → is_reserved a.status ≡ true
    → is_open_publish f a ≡ false
    → SameRow f a b
same_row f a b s reserved shut =
    let k : same_key a.idempotency_key (publish_key f) ≡ false = ground arith in
    record {
      id = s.id;
      opened = rw (s.key, s.status) (rw k);
      done = rw (s.key, s.status) (rw k);
      keyed = rw (s.key, s.folder, s.kind);
    }

module _ (f g : String) (p : FolderPublication) (a : PublicationAttempt)
    (message : has_message (some p) ≡ true) where
  shut_here : (w : World) → Loaded f g (some p) w × Found g a w → is_open_publish f a ≡ false
  shut_here w h =
      not_open f g (find_publication f w.publications) w.attempts w.next_id _ a h.1.0 h.1.1
        (λ e. rw (← e) (rw h.0.1 message)) h.0.0

  write_attempt-Spec :
      (b : PublicationAttempt)
      → Succeeds a b
      → is_reserved a.status ≡ true
      → Spec (λ w. Loaded f g (some p) w × Found g a w) (write_attempt a b) (λ _. Inv f) (Inv f)
  unfolding write_attempt
  write_attempt-Spec b s reserved = record {
    at = λ w h.
        Fits-update f (find_publication f w.publications) w.attempts w.next_id _ a.id (λ _. b) a
          h.1.0 (same_row f a b s reserved (shut_here w h)) h.0.0;
  }

  finish_resolved-Spec :
      (done : PublicationAttempt → PublicationAttempt)
      → Succeeds a (done a)
      → Spec
          (λ w. Loaded f g (some p) w × Found g a w)
          (finish_resolved done a)
          (λ _. Inv f)
          (Inv f)
  finish_resolved-Spec done s =
      unfold finish_resolved in
      spec-if (is_reserved a.status) _ _
        (λ reserved.
          spec-bind (write_attempt a (done a)) (λ b. pure (some b))
            (write_attempt-Spec (done a) s reserved) (λ _. spec-pure _ (λ w h. h)))
        (λ _. spec-pure _ (λ w h. h.0.0))

module _ (f g : String) (p : FolderPublication) (message : has_message (some p) ≡ true)
    (done : PublicationAttempt → PublicationAttempt)
    (marks : (a : PublicationAttempt) → Succeeds a (done a)) where
  pub finish_attempt-Spec :
      (i : Option ℕ) (key : Option IdempotencyKey)
      → Spec (Loaded f g (some p)) (finish_attempt g i key done) (λ _. Inv f) (Inv f)
  unfolding finish_attempt
  finish_attempt-Spec none none = spec-pure _ (λ w h. h.0)
  finish_attempt-Spec none (some key) =
      spec-bind (resolve_attempt g none (some key)) (finish_resolved done)
        (spec-weaken _ (resolve_attempt-Spec f g (some p) none (some key)) (λ w h. h) (λ a w h. h)
          (λ w h. h.0))
        (λ a. finish_resolved-Spec f g p a message done (marks a))
  finish_attempt-Spec (some i) key =
      spec-bind (resolve_attempt g (some i) key) (finish_resolved done)
        (spec-weaken _ (resolve_attempt-Spec f g (some p) (some i) key) (λ w h. h) (λ a w h. h)
          (λ w h. h.0))
        (λ a. finish_resolved-Spec f g p a message done (marks a))
