-- ===== src/Locks/Examples.antt =====
-- Instances of the results on locks.
use radar_ia.Prelude.{◌≡◌, refl, false, some, [], ◌∷◌, is_blank, All, arith}
use radar_ia.Locks.Inference.{
  acquired, ok, taken, try_acquire, release, acquire_call, release_call, steps,
}
use radar_ia.Locks.Inference.Held.{steps-kept, try_acquire-release}

not_blank : All (λ s. is_blank s ≡ false) ("one" ∷ "two" ∷ [])
unfolding is_blank
not_blank = (refl, (refl, tt))

steps-kept_example :
    steps
      (acquire_call "two" 90 20 ∷ release_call "two" 30 ∷ acquire_call "three" 99 39 ∷ [])
      (some (taken "one" 40 10))
    ≡ some (taken "one" 40 10)
steps-kept_example =
    steps-kept "one" 40 10
      (acquire_call "two" 90 20 ∷ release_call "two" 30 ∷ acquire_call "three" 99 39 ∷ [])
      ((refl, omega arith), ((refl, omega arith), ((refl, omega arith), tt)))

try_acquire-release_example :
    try_acquire "two" 90 20 (release "one" 15 (some (taken "one" 40 10))).1
    ≡ (ok (acquired (taken "two" 90 20) false), some (taken "two" 90 20))
try_acquire-release_example =
    try_acquire-release "one" "two" 40 10 15 90 20 not_blank.0 not_blank.1.0
