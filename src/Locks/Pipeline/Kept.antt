-- ===== src/Locks/Pipeline/Kept.antt =====
-- What the operations do to runs that have ended.
use radar_ia.Prelude.{
  ◌≡◌, ◌≢◌, ◌<◌, refl, ◌∙◌, ℕ, String, Bool, true, false, Option, none, some, List, [], ◌∷◌, length,
  arith, is_blank, Bool-cases, inl, inr,
}
use radar_ia.Locks.Pipeline.{
  PipelineRun, PipelineLock, Tables, AcquirePipelineLockInput, ReleasePipelineLockInput, is_running,
  find_run, find_locked_run, update_run, stolen_run, close_found, close_stale, start_run, is_past,
  is_lock_held, acquire_lock, try_acquire, heartbeat_row, heartbeat_run, heartbeat_lock, heartbeat,
  finished_run, release_run, release_lock, release, PipelineCall, acquire_call, heartbeat_call,
  release_call, step, steps,
}
use radar_ia.Locks.Pipeline.Runs.{Numbered, find_run-below, find_run-update_run, length-update_run}
use radar_ia.Locks.Pipeline.Numbers.{step-Numbered}

module _ (i : ℕ) (r : PipelineRun) (ended : is_running r.status ≡ false) where
  -- the run under the number i
  abbrev Found : List PipelineRun → Type 0
  Found runs = find_run i runs ≡ some r

  update_run-Found :
      (o : Option ℕ) (run : PipelineRun) (f : PipelineRun → PipelineRun) (runs : List PipelineRun)
      → ((x : PipelineRun) → (f x).id ≡ x.id)
      → find_locked_run o runs ≡ some run
      → is_running run.status ≡ true
      → Numbered runs
      → Found runs
      → Found (update_run run.id f runs)
  update_run-Found none run f runs keep found on n h = ground arith
  update_run-Found (some j) run f runs keep found on n h =
      let at_j = (find_run-below j runs run n found).0 in
      let ne : i ≢ run.id = λ e. ground arith in find_run-update_run i run.id f runs keep ne ∙ h

  start_run-Found :
      (input : AcquirePipelineLockInput) (clock : ℕ) (stolen : Bool) (previous : Option ℕ)
      (runs : List PipelineRun)
      → i < length runs
      → Found runs
      → Found (start_run input clock stolen previous runs).1.runs
  start_run-Found input clock stolen previous runs lt h = ground arith

  close_stale-Found :
      (now : ℕ) (o : Option ℕ) (runs : List PipelineRun)
      → Numbered runs
      → Found runs
      → Found (close_stale now o runs)
  close_stale-Found now o runs n h = go (find_locked_run o runs) refl
    where
      go :
          (found : Option PipelineRun)
          → find_locked_run o runs ≡ found
          → Found (close_found now found runs)
      go none e = h
      go (some stale) e = elim (Bool-cases (is_running stale.status)) [
        | inl on ↦ rw on (update_run-Found o stale (stolen_run now) runs (λ x. refl) e on n h)
        | inr off ↦ rw off h
      ]

  length-close_stale :
      (now : ℕ) (o : Option ℕ) (runs : List PipelineRun)
      → length (close_stale now o runs) ≡ length runs
  length-close_stale now o runs = go (find_locked_run o runs)
    where
      go : (found : Option PipelineRun) → length (close_found now found runs) ≡ length runs
      go none = refl
      go (some stale) = elim (Bool-cases (is_running stale.status)) [
        | inl on ↦ rw on (length-update_run stale.id (stolen_run now) runs)
        | inr off ↦ rw off refl
      ]

  try_acquire-Found :
      (input : AcquirePipelineLockInput) (clock : ℕ) (t : Tables)
      → Numbered t.runs
      → Found t.runs
      → Found (try_acquire input clock t).1.runs
  unfolding try_acquire acquire_lock
  try_acquire-Found input clock t n h = elim (Bool-cases (is_blank input.holder_id)) [
    | inl blank ↦ rw blank h
    | inr filled ↦ rw filled (go t.lock)
  ]
    where
      below : i < length t.runs
      below = (find_run-below i t.runs r n h).1

      go : (lock : Option PipelineLock) → Found (acquire_lock input clock lock t.runs).1.runs
      go none = h
      go (some lock) = elim (Bool-cases (is_lock_held lock)) [
        | inl held ↦ elim (Bool-cases (is_past lock.expires_at input.now)) [
          | inl past ↦ rw held (
              rw past (
                start_run-Found input clock true lock.run_id
                  (close_stale input.now lock.run_id t.runs)
                  (rw (length-close_stale input.now lock.run_id t.runs) below)
                  (close_stale-Found input.now lock.run_id t.runs n h)))
          | inr before ↦ rw held (rw before h)
        ]
        | inr free ↦ rw free (start_run-Found input clock false none t.runs below h)
      ]

  heartbeat-Found :
      (holder : String) (expires now : ℕ) (t : Tables)
      → Numbered t.runs
      → Found t.runs
      → Found (heartbeat holder expires now t).1.runs
  unfolding heartbeat heartbeat_lock heartbeat_run
  heartbeat-Found holder expires now t n h = elim (Bool-cases (is_blank holder)) [
    | inl blank ↦ rw blank h
    | inr filled ↦ rw filled (go t.lock)
  ]
    where
      on_run :
          (lock : PipelineLock) (o : Option PipelineRun)
          → find_locked_run lock.run_id t.runs ≡ o
          → Found (heartbeat_run expires now lock o t.runs).1.runs
      on_run lock none e = h
      on_run lock (some run) e = elim (Bool-cases (is_running run.status)) [
        | inl on ↦
            rw on (update_run-Found lock.run_id run (heartbeat_row now) t.runs (λ x. refl) e on n h)
        | inr off ↦ rw off h
      ]

      go :
          (lock : Option PipelineLock)
          → Found (heartbeat_lock holder expires now lock t.runs).1.runs
      go none = h
      go (some lock) = ground (arith, on_run lock (find_locked_run lock.run_id t.runs) refl, h)

  release-Found :
      (input : ReleasePipelineLockInput) (t : Tables)
      → Numbered t.runs
      → Found t.runs
      → Found (release input t).1.runs
  unfolding release release_lock release_run
  release-Found input t n h = elim (Bool-cases (is_blank input.holder_id)) [
    | inl blank ↦ rw blank h
    | inr filled ↦ rw filled (go t.lock)
  ]
    where
      on_run :
          (lock : PipelineLock) (o : Option PipelineRun)
          → find_locked_run lock.run_id t.runs ≡ o
          → Found (release_run input lock o t.runs).1.runs
      on_run lock none e = h
      on_run lock (some run) e = elim (Bool-cases (is_running run.status)) [
        | inl on ↦
            rw on
              (update_run-Found lock.run_id run (finished_run input) t.runs (λ x. refl) e on n h)
        | inr off ↦ rw off h
      ]

      go : (lock : Option PipelineLock) → Found (release_lock input lock t.runs).1.runs
      go none = h
      go (some lock) = ground (arith, on_run lock (find_locked_run lock.run_id t.runs) refl, h)

  step-Found :
      (c : PipelineCall) (t : Tables) → Numbered t.runs → Found t.runs → Found (step c t).runs
  unfolding step
  step-Found (acquire_call input clock) t n h = try_acquire-Found input clock t n h
  step-Found (heartbeat_call holder expires now) t n h = heartbeat-Found holder expires now t n h
  step-Found (release_call input) t n h = release-Found input t n h

-- In tables whose runs are numbered in the order of their insertion, a run that has ended stays under
-- its number with all its columns, whatever calls follow and whatever run the lock names: no run ends
-- twice, runs again or is lost.
pub find_run-steps :
    (cs : List PipelineCall) (t : Tables) (i : ℕ) (r : PipelineRun)
    → Numbered t.runs
    → find_run i t.runs ≡ some r
    → is_running r.status ≡ false
    → find_run i (steps cs t).runs ≡ some r
unfolding steps
find_run-steps [] t i r n found ended = found
find_run-steps (c ∷ rest) t i r n found ended =
    find_run-steps rest (step c t) i r (step-Numbered c t n) (step-Found i r ended c t n found)
      ended
