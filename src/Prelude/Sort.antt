-- ===== src/Prelude/Sort.antt =====
-- `xs.sort(compare)`, which is stable, as insertion; `le` says that compare gives at most 0.
use mathlib.Core.Path.{◌≡◌, refl}
use mathlib.Core.Bool.{Bool, true, false}
use mathlib.Core.List.{List, [], ◌∷◌}
use mathlib.Core.Logic.{inl, inr}
use native.Mathlib.Omega.{arith}
use Prim.Native.Nat.{suc}
use radar_ia.Prelude.Tests.{if◌then◌else◌, Bool-cases}
use radar_ia.Prelude.Lists.{All, any, filter, length}

module _ {ℓ} {A : Type ℓ} (le : A → A → Bool) where
  abbrev pub insert : A → List A → List A
  insert x [] = x ∷ []
  insert x (y ∷ ys) = let rest = insert x ys in if le x y then x ∷ y ∷ ys else y ∷ rest

  abbrev pub sort_by : List A → List A
  sort_by [] = []
  sort_by (x ∷ xs) = insert x (sort_by xs)

  -- each element is in order with all that follow it
  abbrev pub Sorted : List A → Type 0
  Sorted [] = Unit
  Sorted (x ∷ xs) = All (λ y. le x y ≡ true) xs × Sorted xs

module _ {ℓ} {A : Type ℓ} (le : A → A → Bool) where
  pub length-insert : (x : A) (xs : List A) → length (insert le x xs) ≡ suc (length xs)
  length-insert x [] = refl
  length-insert x (y ∷ ys) = ground (arith, length-insert x ys)

  pub length-sort_by : (xs : List A) → length (sort_by le xs) ≡ length xs
  length-sort_by [] = refl
  length-sort_by (x ∷ xs) = ground (arith, length-insert x (sort_by le xs), length-sort_by xs)

  pub any-insert : (p : A → Bool) (x : A) (xs : List A) → any p (insert le x xs) ≡ any p (x ∷ xs)
  any-insert p x [] = refl
  any-insert p x (y ∷ ys) = ground (arith, any-insert p x ys)

  -- sorting keeps which elements there are
  pub any-sort_by : (p : A → Bool) (xs : List A) → any p (sort_by le xs) ≡ any p xs
  any-sort_by p [] = refl
  any-sort_by p (x ∷ xs) = ground (arith, any-insert p x (sort_by le xs), any-sort_by p xs)

module _ {ℓ κ} {A : Type ℓ} (P : A → Type κ) (le : A → A → Bool) where
  pub All-insert : (x : A) (xs : List A) → P x → All P xs → All P (insert le x xs)
  All-insert x [] px h = (px, tt)
  All-insert x (y ∷ ys) px h = elim (Bool-cases (le x y)) [
    | inl before ↦ rw before (px, h)
    | inr after ↦ rw after (h.0, All-insert x ys px h.1)
  ]

  pub All-sort_by : (xs : List A) → All P xs → All P (sort_by le xs)
  All-sort_by [] h = tt
  All-sort_by (x ∷ xs) h = All-insert x (sort_by le xs) h.0 (All-sort_by xs h.1)

-- what is sorted by a test is in the order of each transitive test that follows from it
module _ {ℓ} {A : Type ℓ} (le weak : A → A → Bool)
    (ahead : (a b : A) → le a b ≡ true → weak a b ≡ true)
    (behind : (a b : A) → le a b ≡ false → weak b a ≡ true)
    (trans : (a b c : A) → weak a b ≡ true → weak b c ≡ true → weak a c ≡ true) where
  All-before :
      (x y : A) (ys : List A)
      → weak x y ≡ true
      → All (λ z. weak y z ≡ true) ys
      → All (λ z. weak x z ≡ true) ys
  All-before x y [] h all = tt
  All-before x y (z ∷ zs) h all = (trans x y z h all.0, All-before x y zs h all.1)

  insert-Sorted : (x : A) (xs : List A) → Sorted weak xs → Sorted weak (insert le x xs)
  insert-Sorted x [] s = (tt, tt)
  insert-Sorted x (y ∷ ys) s = elim (Bool-cases (le x y)) [
    | inl before ↦ rw before ((ahead x y before, All-before x y ys (ahead x y before) s.0), s)
    | inr after ↦
        rw after
          (All-insert (λ z. weak y z ≡ true) le x ys (behind x y after) s.0, insert-Sorted x ys s.1)
  ]

  pub sort_by-Sorted : (xs : List A) → Sorted weak (sort_by le xs)
  sort_by-Sorted [] = tt
  sort_by-Sorted (x ∷ xs) = insert-Sorted x (sort_by le xs) (sort_by-Sorted xs)

-- a part of which one element is left is the same before and after sorting
module _ {ℓ} {A : Type ℓ} (le : A → A → Bool) (p : A → Bool) where
  filter-insert_none :
      (x : A) (xs : List A) → filter p xs ≡ [] → filter p (insert le x xs) ≡ filter p (x ∷ [])
  filter-insert_none x [] h = refl
  filter-insert_none x (y ∷ ys) h = ground (arith, filter-insert_none x ys)

  filter-insert_out : (x : A) (xs : List A) → p x ≡ false → filter p (insert le x xs) ≡ filter p xs
  filter-insert_out x [] h = rw h refl
  filter-insert_out x (y ∷ ys) h = ground (arith, filter-insert_out x ys h)

  length-filter-insert :
      (x : A) (xs : List A) → length (filter p (insert le x xs)) ≡ length (filter p (x ∷ xs))
  length-filter-insert x [] = refl
  length-filter-insert x (y ∷ ys) = ground (arith, length-filter-insert x ys)

  filter-sort_by_none : (xs : List A) → filter p (sort_by le xs) ≡ [] → filter p xs ≡ []
  filter-sort_by_none [] h = refl
  filter-sort_by_none (x ∷ xs) h = elim (Bool-cases (p x)) [
    | inl in_p ↦ ground (arith, length-filter-insert x (sort_by le xs))
    | inr out ↦ ground (arith, filter-insert_out x (sort_by le xs) out, filter-sort_by_none xs)
  ]

  pub filter-sort_by :
      (xs : List A) (c : A) → filter p (sort_by le xs) ≡ c ∷ [] → filter p xs ≡ c ∷ []
  filter-sort_by [] c h = h
  filter-sort_by (x ∷ xs) c h = elim (Bool-cases (p x)) [
    | inl in_p ↦
        let alone : filter p (sort_by le xs) ≡ [] =
          ground (arith, length-filter-insert x (sort_by le xs)) in
        ground (arith, filter-sort_by_none xs alone, filter-insert_none x (sort_by le xs) alone)
    | inr out ↦ ground (arith, filter-insert_out x (sort_by le xs) out, filter-sort_by xs c)
  ]
