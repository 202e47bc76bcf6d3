-- ===== src/Publication/Hoare.antt =====
-- Rules for the methods of `Exec`: `Spec P m Q E` says that from a world in `P` the method ends in
-- `Q a` if it returns `a`, and in `E` if it throws.
use radar_ia.Prelude.{◌≡◌, refl, Bool, true, false, if◌then◌else◌}
use radar_ia.Publication.Exec.{
  Exn, Result, ok, err, M, pure, throw, gets, transaction, attempt, require, roll_back, continue,
  ◌>>=◌,
}

module _ {W A : Type 0} where
  abbrev pub After : (A → W → Type 0) → (W → Type 0) → Result A → W → Type 0
  After Q E (ok a) w = Q a w
  After Q E (err e) w = E w

  pub record Spec (P : W → Type 0) (m : M W A) (Q : A → W → Type 0) (E : W → Type 0) : Type 0 where
    pub at : (w : W) → P w → After Q E (m w).0 (m w).1

  -- `m` keeps `P`, whether it returns or throws.
  abbrev pub Keeps : (W → Type 0) → M W A → Type 0
  Keeps P m = Spec P m (λ _. P) P

module _ {W A : Type 0} {P T : W → Type 0} {Q : A → W → Type 0} where
  -- a throw inside a transaction leaves the world as it was
  pub spec-transaction : (m : M W A) → Spec P m Q T → Spec P (transaction m) Q P
  spec-transaction m h = record { at = λ w p. go w p (m w) (h.at w p) }
    where
      go :
          (w : W)
          → P w
          → (r : Result A × W) → After Q T r.0 r.1
          → After Q P (roll_back w r).0 (roll_back w r).1
      go w p (ok a, w') q = q
      go w p (err e, w') q = p

module _ {W A : Type 0} {P E : W → Type 0} {Q : A → W → Type 0} where
  pub spec-pure : (a : A) → ((w : W) → P w → Q a w) → Spec P (pure a) Q E
  spec-pure a h = record { at = h }

  pub spec-throw : (e : Exn) → ((w : W) → P w → E w) → Spec P (throw {A = A} e) Q E
  spec-throw e h = record { at = h }

  pub spec-gets : (f : W → A) → ((w : W) → P w → Q (f w) w) → Spec P (gets f) Q E
  spec-gets f h = record { at = h }

  pub spec-if :
      (b : Bool) (m n : M W A)
      → (b ≡ true → Spec P m Q E)
      → (b ≡ false → Spec P n Q E)
      → Spec P (if b then m else n) Q E
  spec-if true m n hm hn = hm refl
  spec-if false m n hm hn = hn refl

  pub spec-attempt :
      (m : M W A) → Spec P m Q E → {T : W → Type 0} → Spec P (attempt m) (After Q E) T
  spec-attempt m h = record { at = h.at }

  -- weaker before, stronger after
  pub spec-weaken :
      {P' E' : W → Type 0} {Q' : A → W → Type 0} (m : M W A)
      → Spec P m Q E
      → ((w : W) → P' w → P w)
      → ((a : A) (w : W) → Q a w → Q' a w)
      → ((w : W) → E w → E' w)
      → Spec P' m Q' E'
  spec-weaken {P'} {E'} {Q'} m h before after thrown = record {
    at = λ w p. go (m w).0 (m w).1 (h.at w (before w p));
  }
    where
      go : (r : Result A) (w : W) → After Q E r w → After Q' E' r w
      go (ok a) w q = after a w q
      go (err e) w q = thrown w q

module _ {W A B : Type 0} {P E : W → Type 0} {Q : A → W → Type 0} {R : B → W → Type 0} where
  pub spec-bind :
      (m : M W A) (k : A → M W B)
      → Spec P m Q E
      → ((a : A) → Spec (Q a) (k a) R E)
      → Spec P (m >>= k) R E
  spec-bind m k hm hk = record { at = λ w p. go (m w) (hm.at w p) }
    where
      go : (r : Result A × W) → After Q E r.0 r.1 → After R E (continue k r).0 (continue k r).1
      go (ok a, w) q = (hk a).at w q
      go (err e, w) q = q

module _ {W A : Type 0} {P : W → Type 0} {Q : A → W → Type 0} where
  -- what never throws needs no rollback
  pub spec-transaction_never : (m : M W A) → Spec P m Q (λ _. ⊥) → Spec P (transaction m) Q (λ _. ⊥)
  spec-transaction_never m h = record { at = λ w p. go w (m w) (h.at w p) }
    where
      go :
          (w : W) (r : Result A × W)
          → After Q (λ _. ⊥) r.0 r.1
          → After Q (λ _. ⊥) (roll_back w r).0 (roll_back w r).1
      go w (ok a, w') q = q
      go w (err e, w') q = q

module _ {W : Type 0} {P E : W → Type 0} {Q : Unit → W → Type 0} where
  pub spec-require :
      (b : Bool) (e : Exn)
      → (b ≡ true → (w : W) → P w → Q tt w)
      → ((w : W) → P w → E w)
      → Spec P (require b e) Q E
  spec-require true e h t = record { at = h refl }
  spec-require false e h t = record { at = t }
