-- ===== src/Locks/Inference/Held.antt =====
-- How long a holder keeps the inference lock.
use radar_ia.Prelude.{
  ◌≡◌, ◌<◌, refl, ℕ, String, false, some, List, [], ◌∷◌, All, leb, arith, str_eq, is_blank,
  Bool-cases, inl, inr, eq_refl,
}
use radar_ia.Locks.Inference.{
  acquired, ok, taken, acquire_row, try_acquire, release_row, release, LockCall, acquire_call,
  release_call, step, steps,
}

-- a call of another process, before the lock's end
abbrev pub Foreign : String → ℕ → LockCall → Type 0
Foreign holder expires (acquire_call other end now) =
    (str_eq holder other ≡ false) × (now < expires)
Foreign holder expires (release_call other now) = (str_eq holder other ≡ false) × (now < expires)

acquire_row-blocked :
    (holder other : String) (expires since end now : ℕ)
    → now < expires
    → (acquire_row other end now (some (taken holder expires since))).1
      ≡ some (taken holder expires since)
unfolding acquire_row
acquire_row-blocked holder other expires since end now h =
    let early : leb expires now ≡ false = ground arith in rw early refl

release_row-refused :
    (holder other : String) (expires since now : ℕ)
    → str_eq holder other ≡ false
    → (release_row other now (some (taken holder expires since))).1
      ≡ some (taken holder expires since)
unfolding release_row
release_row-refused holder other expires since now h = rw h refl

try_acquire-blocked :
    (holder other : String) (expires since end now : ℕ)
    → now < expires
    → (try_acquire other end now (some (taken holder expires since))).1
      ≡ some (taken holder expires since)
unfolding try_acquire
try_acquire-blocked holder other expires since end now h = elim (Bool-cases (is_blank other)) [
  | inl blank ↦ rw blank refl
  | inr filled ↦ rw filled (acquire_row-blocked holder other expires since end now h)
]

release-refused :
    (holder other : String) (expires since now : ℕ)
    → str_eq holder other ≡ false
    → (release other now (some (taken holder expires since))).1 ≡ some (taken holder expires since)
unfolding release
release-refused holder other expires since now h = elim (Bool-cases (is_blank other)) [
  | inl blank ↦ rw blank refl
  | inr filled ↦ rw filled (release_row-refused holder other expires since now h)
]

step-kept :
    (holder : String) (expires since : ℕ) (c : LockCall)
    → Foreign holder expires c
    → step c (some (taken holder expires since)) ≡ some (taken holder expires since)
unfolding step
step-kept holder expires since (acquire_call other end now) h =
    try_acquire-blocked holder other expires since end now h.1
step-kept holder expires since (release_call other now) h =
    release-refused holder other expires since now h.0

-- Once a process has acquired the inference lock, no sequence of calls of other processes before
-- the lock's end changes the row: nobody else acquires the lock and nobody else releases it.
pub steps-kept :
    (holder : String) (expires since : ℕ) (cs : List LockCall)
    → All (Foreign holder expires) cs
    → steps cs (some (taken holder expires since)) ≡ some (taken holder expires since)
unfolding steps
steps-kept holder expires since [] h = refl
steps-kept holder expires since (c ∷ rest) h =
    rw (step-kept holder expires since c h.0) (steps-kept holder expires since rest h.1)

-- Once its holder has released the lock, any process acquires it at any time, not as stolen; neither
-- of the two names must be blank.
pub try_acquire-release :
    (holder other : String) (expires since released end now : ℕ)
    → is_blank holder ≡ false
    → is_blank other ≡ false
    → try_acquire other end now (release holder released (some (taken holder expires since))).1
      ≡ (ok (acquired (taken other end now) false), some (taken other end now))
unfolding try_acquire release acquire_row release_row
try_acquire-release holder other expires since released end now bh bo =
    rw bo (rw bh (rw (eq_refl holder) refl))
