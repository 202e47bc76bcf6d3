-- ===== src/Publication/Tables.antt =====
-- Laws of the two tables: lookups after writes, and counts of attempts.
use radar_ia.Prelude.{
  ◌≢◌, ℕ, ◌+◌, ◌<◌, ◌≤◌, ◌≡◌, ◌⊎◌, inl, inr, refl, String, Bool, true, false, Option, none, some,
  List, [], ◌∷◌, arith, ltb, ◌==◌, str_eq, eq_iff, if◌then◌else◌, Bool-cases,
}
use radar_ia.Publication.Types.{FolderPublication, PublicationAttempt}
use radar_ia.Publication.World.{
  find_publication, put_publication, prefer, latest, find_attempt, update_attempt,
}

pub find_publication-put :
    (f : String) (p : FolderPublication) (ps : List FolderPublication)
    → find_publication f (put_publication p ps)
      ≡ (if str_eq p.folder_id f then some p else find_publication f ps)
unfolding find_publication put_publication
find_publication-put f p [] = refl
find_publication-put f p (q ∷ ps) = ground (
  arith,
  eq_iff p.folder_id f,
  eq_iff q.folder_id f,
  eq_iff q.folder_id p.folder_id,
  find_publication-put f p ps,
)

pub find_publication-folder_id :
    (f : String) (ps : List FolderPublication) (p : FolderPublication)
    → find_publication f ps ≡ some p
    → p.folder_id ≡ f
unfolding find_publication
find_publication-folder_id f [] p h = cc
find_publication-folder_id f (q ∷ ps) p h =
    ground (arith, eq_iff q.folder_id f, find_publication-folder_id f ps p)

abbrev pub bit : Bool → ℕ
bit true = 1
bit false = 0

-- how many attempts pass a test
abbrev pub count_if : (PublicationAttempt → Bool) → List PublicationAttempt → ℕ
count_if c [] = 0
count_if c (a ∷ rest) = bit (c a) + count_if c rest

-- Ids are drawn in ascending order and the newest attempt stands first.
abbrev pub Below : ℕ → List PublicationAttempt → Type 0
Below n [] = Unit
Below n (a ∷ rest) = (a.id < n) × Below a.id rest

pub count_if-update :
    (c : PublicationAttempt → Bool) (i : ℕ) (h : PublicationAttempt → PublicationAttempt)
    (l : List PublicationAttempt) (a : PublicationAttempt)
    → find_attempt i l ≡ some a
    → count_if c (update_attempt i h l) + bit (c a) ≡ count_if c l + bit (c (h a))
unfolding find_attempt update_attempt
count_if-update c i h [] a e = cc
count_if-update c i h (b ∷ l) a e = elim (Bool-cases (b.id == i)) [
  | inl same ↦ rw same (let s : b ≡ a = cc (rw same at e) in rw (← s) (omega arith))
  | inr other ↦ rw other (omega (arith, count_if-update c i h l a (rw other at e)))
]

pub count_if-found :
    (c : PublicationAttempt → Bool) (i : ℕ) (l : List PublicationAttempt) (a : PublicationAttempt)
    → find_attempt i l ≡ some a
    → bit (c a) ≤ count_if c l
unfolding find_attempt
count_if-found c i [] a e = cc
count_if-found c i (b ∷ l) a e = elim (Bool-cases (b.id == i)) [
  | inl same ↦ let s : b ≡ a = cc (rw same at e) in rw (← s) (omega arith)
  | inr other ↦ omega (arith, count_if-found c i l a (rw other at e))
]

prefer-cases :
    (b a : PublicationAttempt) (o : Option PublicationAttempt)
    → prefer b o ≡ a
    → (b ≡ a) ⊎ (o ≡ some a)
prefer-cases b a none e = inl e
prefer-cases b a (some x) e = elim (Bool-cases (ltb b.attempt_number x.attempt_number)) [
  | inl lt ↦ inr (cc (rw lt at e))
  | inr ge ↦ inl (rw ge at e)
]

latest-nil : (p : PublicationAttempt → Bool) (a : PublicationAttempt) → latest p [] ≢ some a
unfolding latest
latest-nil p a e = cc

-- The latest attempt that passes a test is the head, or the latest of the rest.
latest-cases :
    (p : PublicationAttempt → Bool) (b : PublicationAttempt) (l : List PublicationAttempt)
    (a : PublicationAttempt)
    → latest p (b ∷ l) ≡ some a
    → ((b ≡ a) × (p a ≡ true)) ⊎ (latest p l ≡ some a)
unfolding latest
latest-cases p b l a e = elim (Bool-cases (p b)) [
  | inl yes_b ↦ elim (prefer-cases b a (latest p l) (cc (rw yes_b at e))) [
    | inl s ↦ inl (s, rw (← s) yes_b)
    | inr r ↦ inr r
  ]
  | inr no_b ↦ inr (rw no_b at e)
]

pub count_if-latest :
    (c p : PublicationAttempt → Bool) (l : List PublicationAttempt) (a : PublicationAttempt)
    → latest p l ≡ some a
    → bit (c a) ≤ count_if c l
count_if-latest c p [] a e = absurd (latest-nil p a e)
count_if-latest c p (b ∷ l) a e = elim (latest-cases p b l a e) [
  | inl s ↦ rw (← s.0) (omega arith)
  | inr r ↦ omega (arith, count_if-latest c p l a r)
]

pub latest-passes :
    (p : PublicationAttempt → Bool) (l : List PublicationAttempt) (a : PublicationAttempt)
    → latest p l ≡ some a
    → p a ≡ true
latest-passes p [] a e = absurd (latest-nil p a e)
latest-passes p (b ∷ l) a e = elim (latest-cases p b l a e) [
  | inl s ↦ s.1
  | inr r ↦ latest-passes p l a r
]

pub count_if-zero :
    (c p : PublicationAttempt → Bool) (l : List PublicationAttempt)
    → ((a : PublicationAttempt) → c a ≡ true → p a ≡ true)
    → latest p l ≡ none
    → count_if c l ≡ 0
unfolding latest
count_if-zero c p [] imp e = refl
count_if-zero c p (b ∷ l) imp e = ground (arith, imp b, count_if-zero c p l imp)

pub find_attempt-id :
    (i : ℕ) (l : List PublicationAttempt) (a : PublicationAttempt)
    → find_attempt i l ≡ some a
    → a.id ≡ i
unfolding find_attempt
find_attempt-id i [] a e = cc
find_attempt-id i (b ∷ l) a e = ground (arith, find_attempt-id i l a)

pub find_attempt-update :
    (i : ℕ) (h : PublicationAttempt → PublicationAttempt) (l : List PublicationAttempt)
    (a : PublicationAttempt)
    → find_attempt i l ≡ some a
    → (h a).id ≡ i
    → find_attempt i (update_attempt i h l) ≡ some (h a)
unfolding find_attempt update_attempt
find_attempt-update i h [] a e k = cc
find_attempt-update i h (b ∷ l) a e k = elim (Bool-cases (b.id == i)) [
  | inl same ↦ rw same (
      let s : b ≡ a = cc (rw same at e) in
      rw s (let t : ((h a).id == i) ≡ true = ground arith in rw t))
  | inr other ↦ rw other (rw other (find_attempt-update i h l a (rw other at e) k))
]

pub Below-update :
    (n i : ℕ) (h : PublicationAttempt → PublicationAttempt) (l : List PublicationAttempt)
    (a : PublicationAttempt)
    → find_attempt i l ≡ some a
    → (h a).id ≡ a.id
    → Below n l
    → Below n (update_attempt i h l)
unfolding find_attempt update_attempt
Below-update n i h [] a e k b = tt
Below-update n i h (x ∷ l) a e k b = elim (Bool-cases (x.id == i)) [
  | inl same ↦
      let s : x ≡ a = cc (rw same at e) in rw same (let t : (h x).id ≡ x.id = rw s k in rw t b)
  | inr other ↦ rw other (b.0, Below-update x.id i h l a (rw other at e) k b.1)
]

-- An id that stands in the table is below the bound.
pub find_attempt-lt :
    (n i : ℕ) (l : List PublicationAttempt) (a : PublicationAttempt)
    → Below n l
    → find_attempt i l ≡ some a
    → i < n
unfolding find_attempt
find_attempt-lt n i [] a b e = cc
find_attempt-lt n i (x ∷ l) a b e = elim (Bool-cases (x.id == i)) [
  | inl same ↦ ground arith
  | inr other ↦ omega (arith, find_attempt-lt x.id i l a b.1 (rw other at e))
]

pub find_attempt-latest :
    (n : ℕ) (p : PublicationAttempt → Bool) (l : List PublicationAttempt) (a : PublicationAttempt)
    → Below n l
    → latest p l ≡ some a
    → find_attempt a.id l ≡ some a
unfolding find_attempt
find_attempt-latest n p [] a b e = absurd (latest-nil p a e)
find_attempt-latest n p (x ∷ l) a b e = elim (latest-cases p x l a e) [
  | inl s ↦ rw (s.0) (let t : (a.id == a.id) ≡ true = ground arith in rw t)
  | inr r ↦
      let f = find_attempt-latest x.id p l a b.1 r in
      let lt = find_attempt-lt x.id a.id l a b.1 f in
      let t : (x.id == a.id) ≡ false = ground arith in rw t f
]
