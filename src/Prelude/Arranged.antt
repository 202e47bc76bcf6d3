-- ===== src/Prelude/Arranged.antt =====
-- What a filter, a sort and a cut leave of a list: its elements, arranged.
use mathlib.Core.Path.{◌≡◌, refl}
use mathlib.Core.Bool.{Bool, true, not}
use mathlib.Core.Option.{Option, none, some}
use mathlib.Core.List.{List, [], ◌∷◌, ◌++◌, Perm, perm_middle}
use mathlib.Core.List.Perm
use mathlib.Core.Logic.{inl, inr}
use native.Mathlib.Omega.{arith}
use Prim.Native.Nat.{ℕ, zero, suc, min}
use radar_ia.Prelude.Tests.{Bool-cases}
use radar_ia.Prelude.Lists.{All, filter, take, drop, length}
use radar_ia.Prelude.Sort.{insert, sort_by, Sorted}

-- each element in the relation with all that follow it
abbrev pub Ordered {ℓ κ} : {A : Type ℓ} → (A → A → Type κ) → List A → Type (ℓ ⊔ κ)
Ordered R [] = Unit
Ordered R (x ∷ xs) = All (R x) xs × Ordered R xs

-- a value that an optional filter asks for
abbrev pub IsWanted {ℓ} : {A : Type ℓ} → Option A → A → Type ℓ
IsWanted none x = Unit
IsWanted (some a) x = x ≡ a

module _ {ℓ} {A : Type ℓ} where
  insert-Perm : (le : A → A → Bool) (x : A) (xs : List A) → Perm (insert le x xs) (x ∷ xs)
  insert-Perm le x [] = Perm.refl (x ∷ [])
  insert-Perm le x (y ∷ ys) = elim (Bool-cases (le x y)) [
    | inl before ↦ rw before (Perm.refl (x ∷ y ∷ ys))
    | inr after ↦ rw after (Perm.trans (Perm.cons y (insert-Perm le x ys)) (Perm.swap x y ys))
  ]

  pub sort_by-Perm : (le : A → A → Bool) (xs : List A) → Perm (sort_by le xs) xs
  sort_by-Perm le [] = Perm.refl []
  sort_by-Perm le (x ∷ xs) =
      Perm.trans (insert-Perm le x (sort_by le xs)) (Perm.cons x (sort_by-Perm le xs))

  pub filter-Perm :
      (p : A → Bool) (xs : List A) → Perm (filter p xs ++ filter (λ x. not (p x)) xs) xs
  filter-Perm p [] = Perm.refl []
  filter-Perm p (x ∷ xs) = elim (Bool-cases (p x)) [
    | inl kept ↦ rw kept (Perm.cons x (filter-Perm p xs))
    | inr out ↦ rw out (
        Perm.trans (perm_middle (filter p xs) (filter (λ y. not (p y)) xs))
          (Perm.cons x (filter-Perm p xs)))
  ]

  pub take-append-drop : (n : ℕ) (xs : List A) → take n xs ++ drop n xs ≡ xs
  take-append-drop zero xs = refl
  take-append-drop (suc n) [] = refl
  take-append-drop (suc n) (x ∷ xs) = rw (take-append-drop n xs) refl

  pub length-take : (n : ℕ) (xs : List A) → length (take n xs) ≡ min n (length xs)
  length-take zero xs = omega arith
  length-take (suc n) [] = omega arith
  length-take (suc n) (x ∷ xs) = omega (arith, length-take n xs)

module _ {ℓ κ μ} {A : Type ℓ} (P : A → Type κ) (Q : A → Type μ) (step : (x : A) → P x → Q x) where
  pub All-map : (xs : List A) → All P xs → All Q xs
  All-map [] h = tt
  All-map (x ∷ xs) h = (step x h.0, All-map xs h.1)

module _ {ℓ} {A : Type ℓ} (p : A → Bool) where
  pub All-filter : (xs : List A) → All (λ x. p x ≡ true) (filter p xs)
  All-filter [] = tt
  All-filter (x ∷ xs) = elim (Bool-cases (p x)) [
    | inl kept ↦ rw kept (kept, All-filter xs)
    | inr out ↦ rw out (All-filter xs)
  ]

module _ {ℓ κ} {A : Type ℓ} (le : A → A → Bool) (R : A → A → Type κ)
    (means : (a b : A) → le a b ≡ true → R a b) where
  pub Sorted-Ordered : (xs : List A) → Sorted le xs → Ordered R xs
  Sorted-Ordered [] h = tt
  Sorted-Ordered (x ∷ xs) h =
      (All-map (λ y. le x y ≡ true) (R x) (means x) xs h.0, Sorted-Ordered xs h.1)
