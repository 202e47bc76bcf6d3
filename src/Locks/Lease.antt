-- ===== src/Locks/Lease.antt =====
-- What a lock promises, apart from how its row is kept: a lease that one holder has until an end.
-- The two locks of packages/database/src are read as implementations of it.
use radar_ia.Prelude.{
  ◌≡◌, ◌<◌, refl, ℕ, String, Bool, true, false, Option, none, some, List, [], ◌∷◌, map, All, leb,
  arith, str_eq, is_blank, if◌then◌else◌,
}

-- the holder and the end of its lease; a lease without end may be taken over at any time
abbrev pub Lease : Type 0
Lease = Option (String × Option ℕ)

abbrev pub is_over : Option ℕ → ℕ → Bool
is_over none now = true
is_over (some t) now = leb t now

pub data LeaseCall : Type 0 where
  take : String → ℕ → ℕ → LeaseCall
  renew : String → ℕ → LeaseCall
  give_back : String → LeaseCall

unfoldable pub take_lease : String → ℕ → ℕ → Lease → Bool × Lease
take_lease holder end now none = (true, some (holder, some end))
take_lease holder end now (some l) =
    if is_over l.1 now then (true, some (holder, some end)) else (false, some l)

unfoldable pub renew_lease : String → ℕ → Lease → Bool × Lease
renew_lease holder end none = (false, none)
renew_lease holder end (some l) =
    if str_eq l.0 holder then (true, some (l.0, some end)) else (false, some l)

unfoldable pub end_lease : String → Lease → Bool × Lease
end_lease holder none = (false, none)
end_lease holder (some l) = if str_eq l.0 holder then (true, none) else (false, some l)

abbrev pub named : String → (Lease → Bool × Lease) → Lease → Bool × Lease
named holder act l = let answer = act l in if is_blank holder then (false, l) else answer

-- a call's answer, whether it did what it was asked for, and the lease after it
unfoldable pub answer : LeaseCall → Lease → Bool × Lease
answer (take holder end now) l = named holder (take_lease holder end now) l
answer (renew holder end) l = named holder (renew_lease holder end) l
answer (give_back holder) l = named holder (end_lease holder) l

unfoldable pub answers : List LeaseCall → Lease → List Bool × Lease
answers [] l = ([], l)
answers (c ∷ rest) l =
    let first = answer c l in let later = answers rest first.1 in (first.0 ∷ later.0, later.1)

-- a lock that stands for a lease, at the states that it reaches
pub record Implementation (S C : Type 0) : Type 1 where
  pub Reached : S → Type 0
  pub view : S → Lease
  pub asked : C → LeaseCall
  pub run : C → S → Bool × S
  pub run-Reached : (c : C) (s : S) → Reached s → Reached (run c s).1
  pub run-answer :
      (c : C) (s : S) → Reached s → ((run c s).0, view (run c s).1) ≡ answer (asked c) (view s)

module _ {S C : Type 0} (lock : Implementation S C) where
  unfoldable pub runs : List C → S → List Bool × S
  runs [] s = ([], s)
  runs (c ∷ rest) s =
      let first = lock.run c s in let later = runs rest first.1 in (first.0 ∷ later.0, later.1)

  pub runs-answers :
      (cs : List C) (s : S)
      → lock.Reached s
      → ((runs cs s).0, lock.view (runs cs s).1) ≡ answers (map lock.asked cs) (lock.view s)
  unfolding runs answers
  runs-answers [] s h = refl
  runs-answers (c ∷ rest) s h =
      rw (← lock.run-answer c s h)
        (rw (← runs-answers rest (lock.run c s).1 (lock.run-Reached c s h)) refl)

-- a call before the end of a lease that another holder has, or a call to take it
abbrev pub Foreign : String → ℕ → LeaseCall → Type 0
Foreign holder end (take other until now) = now < end
Foreign holder end (renew other until) = str_eq holder other ≡ false
Foreign holder end (give_back other) = str_eq holder other ≡ false

abbrev pub refused : List LeaseCall → List Bool
refused cs = map (λ c. false) cs

answer-refused :
    (holder : String) (end : ℕ) (c : LeaseCall)
    → Foreign holder end c
    → answer c (some (holder, some end)) ≡ (false, some (holder, some end))
unfolding answer take_lease renew_lease end_lease
answer-refused holder end (take other until now) early = ground arith
answer-refused holder end (renew other until) other_one = ground arith
answer-refused holder end (give_back other) other_one = ground arith

-- Before a lease's end, calls that do not name its holder, and calls to take it by anyone, are all
-- refused and leave the lease.
pub answers-refused :
    (holder : String) (end : ℕ) (cs : List LeaseCall)
    → All (Foreign holder end) cs
    → answers cs (some (holder, some end)) ≡ (refused cs, some (holder, some end))
unfolding answers
answers-refused holder end [] h = refl
answers-refused holder end (c ∷ rest) h =
    rw (answer-refused holder end c h.0) (rw (answers-refused holder end rest h.1) refl)
