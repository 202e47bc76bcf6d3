-- ===== src/Locks/Pipeline/Invariant.antt =====
-- The lock of the pipeline against the runs, and the invariant under every operation.
use radar_ia.Prelude.{
  ◌≡◌, refl, sym, ap, ℕ, String, Bool, true, false, Option, none, some, List, [], ◌∷◌, is_blank,
  str_eq, Bool-cases, inl, inr,
}
use radar_ia.Locks.Pipeline.{
  PipelineRun, PipelineLock, Tables, AcquirePipelineLockInput, ReleasePipelineLockInput,
  FinalStatus, final_completed, final_failed, final_degraded, status_of, start_run, is_running,
  stolen_run, close_stale, new_run, is_past, acquire_lock, try_acquire, heartbeat_row,
  heartbeat_run, heartbeat_lock, heartbeat, finished_run, release_run, release_lock, release,
  PipelineCall, acquire_call, heartbeat_call, release_call, step, steps,
}
use radar_ia.Locks.Pipeline.Numbers.{close_stale-Numbered}
use radar_ia.Locks.Pipeline.Runs.{
  Numbered, active, update_run-Numbered, find_run-active, active-running, active-finished,
  active-renewed,
}

-- no run runs, or exactly the one that the lock names does, for the lock's holder
abbrev pub Fits : Option ℕ → Option String → List PipelineRun → Type 0
Fits none none runs = active runs ≡ []
Fits (some i) (some h) runs =
    (r : PipelineRun) × (active runs ≡ r ∷ []) × (r.id ≡ i) × (r.holder_id ≡ h)
Fits _ _ runs = ⊥

abbrev pub LockFits : Option PipelineLock → List PipelineRun → Type 0
LockFits none runs = active runs ≡ []
LockFits (some lock) runs = Fits lock.run_id lock.holder_id runs

abbrev pub SingleFlight : Tables → Type 0
SingleFlight t = Numbered t.runs × LockFits t.lock t.runs

-- the run of a held lock that has ended
active-close_stale :
    (now : ℕ) (runs : List PipelineRun) (r : PipelineRun)
    → Numbered runs
    → active runs ≡ r ∷ []
    → active (close_stale now (some r.id) runs) ≡ []
active-close_stale now runs r n one =
    rw (find_run-active runs r n one)
      (rw (active-running runs r one) (active-finished (stolen_run now) runs r (λ x. refl) one))

-- a free lock, or one whose run is closed
start_run-SingleFlight :
    (input : AcquirePipelineLockInput) (clock : ℕ) (stolen : Bool) (previous : Option ℕ)
    (runs : List PipelineRun)
    → Numbered runs
    → active runs ≡ []
    → SingleFlight (start_run input clock stolen previous runs).1
start_run-SingleFlight input clock stolen previous runs n off = (
  (refl, n),
  (new_run input clock runs, ap (λ rs. new_run input clock runs ∷ rs) off, refl, refl),
)

acquire_lock-Fits :
    (input : AcquirePipelineLockInput) (clock : ℕ) (lock : PipelineLock) (o : Option ℕ)
    (h : Option String) (runs : List PipelineRun)
    → lock.run_id ≡ o
    → lock.holder_id ≡ h
    → Numbered runs
    → Fits o h runs
    → SingleFlight (acquire_lock input clock (some lock) runs).1
unfolding acquire_lock
acquire_lock-Fits input clock lock none none runs eo eh n fits =
    rw eo (start_run-SingleFlight input clock false none runs n fits)
acquire_lock-Fits input clock lock (some i) (some h) runs eo eh n fits =
    elim (Bool-cases (is_past lock.expires_at input.now)) [
      | inl past ↦ rw eo (
          rw eh (
            rw past (
              start_run-SingleFlight input clock true (some i) (close_stale input.now (some i) runs)
                (close_stale-Numbered input.now (some i) runs n)
                (rw (sym fits.2) (active-close_stale input.now runs fits.0 n fits.1)))))
      | inr before ↦ rw eo (rw eh (rw before (n, fits)))
    ]
acquire_lock-Fits input clock lock none (some h) runs eo eh n fits = absurd fits
acquire_lock-Fits input clock lock (some i) none runs eo eh n fits = absurd fits

try_acquire-SingleFlight :
    (input : AcquirePipelineLockInput) (clock : ℕ) (t : Tables)
    → SingleFlight t
    → SingleFlight (try_acquire input clock t).1
unfolding try_acquire acquire_lock
try_acquire-SingleFlight input clock t inv = elim (Bool-cases (is_blank input.holder_id)) [
  | inl blank ↦ rw blank inv
  | inr filled ↦ rw filled (go t.lock inv.1)
]
  where
    go :
        (lock : Option PipelineLock)
        → LockFits lock t.runs
        → SingleFlight (acquire_lock input clock lock t.runs).1
    go none fits = (inv.0, fits)
    go (some lock) fits =
        acquire_lock-Fits input clock lock lock.run_id lock.holder_id t.runs refl refl inv.0 fits

-- the answer of an operation that needs the lock, by the holder that it names
heartbeat_lock-Fits :
    (holder : String) (expires now : ℕ) (lock : PipelineLock) (o : Option ℕ) (h : Option String)
    (runs : List PipelineRun)
    → lock.run_id ≡ o
    → lock.holder_id ≡ h
    → Numbered runs
    → Fits o h runs
    → SingleFlight (heartbeat_lock holder expires now (some lock) runs).1
unfolding heartbeat_lock heartbeat_run
heartbeat_lock-Fits holder expires now lock none none runs eo eh n fits = rw eo (n, rw eh fits)
heartbeat_lock-Fits holder expires now lock (some i) (some h) runs eo eh n fits =
    elim (Bool-cases (str_eq h holder)) [
      | inl own ↦ rw eo (
          rw eh (
            rw own (
              rw (sym fits.2) (
                rw (find_run-active runs fits.0 n fits.1) (
                  rw (active-running runs fits.0 fits.1) (
                    update_run-Numbered fits.0.id (heartbeat_row now) runs (λ r. refl) n,
                    (
                      heartbeat_row now fits.0,
                      active-renewed (heartbeat_row now) runs fits.0 (λ r. refl) n fits.1,
                      refl,
                      fits.3,
                    ),
                  ))))))
      | inr other ↦ rw eo (rw eh (rw other (n, fits)))
    ]
heartbeat_lock-Fits holder expires now lock none (some h) runs eo eh n fits = absurd fits
heartbeat_lock-Fits holder expires now lock (some i) none runs eo eh n fits = absurd fits

heartbeat-SingleFlight :
    (holder : String) (expires now : ℕ) (t : Tables)
    → SingleFlight t
    → SingleFlight (heartbeat holder expires now t).1
unfolding heartbeat heartbeat_lock
heartbeat-SingleFlight holder expires now t inv = elim (Bool-cases (is_blank holder)) [
  | inl blank ↦ rw blank inv
  | inr filled ↦ rw filled (go t.lock inv.1)
]
  where
    go :
        (lock : Option PipelineLock)
        → LockFits lock t.runs
        → SingleFlight (heartbeat_lock holder expires now lock t.runs).1
    go none fits = (inv.0, fits)
    go (some lock) fits =
        heartbeat_lock-Fits holder expires now lock lock.run_id lock.holder_id t.runs refl refl
          inv.0 fits

finished_run-Final :
    (input : ReleasePipelineLockInput) (r : PipelineRun)
    → is_running (finished_run input r).status ≡ false
finished_run-Final input r = go input.status
  where
    go : (s : FinalStatus) → is_running (status_of s) ≡ false
    go final_completed = refl
    go final_failed = refl
    go final_degraded = refl

release_lock-Fits :
    (input : ReleasePipelineLockInput) (lock : PipelineLock) (o : Option ℕ) (h : Option String)
    (runs : List PipelineRun)
    → lock.run_id ≡ o
    → lock.holder_id ≡ h
    → Numbered runs
    → Fits o h runs
    → SingleFlight (release_lock input (some lock) runs).1
unfolding release_lock release_run
release_lock-Fits input lock none none runs eo eh n fits = rw eo (n, rw eh fits)
release_lock-Fits input lock (some i) (some h) runs eo eh n fits =
    elim (Bool-cases (str_eq h input.holder_id)) [
      | inl own ↦ rw eo (
          rw eh (
            rw own (
              rw (sym fits.2) (
                rw (find_run-active runs fits.0 n fits.1) (
                  rw (active-running runs fits.0 fits.1) (
                    update_run-Numbered fits.0.id (finished_run input) runs (λ r. refl) n,
                    active-finished (finished_run input) runs fits.0 (finished_run-Final input)
                        fits.1,
                  ))))))
      | inr other ↦ rw eo (rw eh (rw other (n, fits)))
    ]
release_lock-Fits input lock none (some h) runs eo eh n fits = absurd fits
release_lock-Fits input lock (some i) none runs eo eh n fits = absurd fits

release-SingleFlight :
    (input : ReleasePipelineLockInput) (t : Tables)
    → SingleFlight t
    → SingleFlight (release input t).1
unfolding release release_lock
release-SingleFlight input t inv = elim (Bool-cases (is_blank input.holder_id)) [
  | inl blank ↦ rw blank inv
  | inr filled ↦ rw filled (go t.lock inv.1)
]
  where
    go :
        (lock : Option PipelineLock)
        → LockFits lock t.runs
        → SingleFlight (release_lock input lock t.runs).1
    go none fits = (inv.0, fits)
    go (some lock) fits =
        release_lock-Fits input lock lock.run_id lock.holder_id t.runs refl refl inv.0 fits

pub step-SingleFlight : (c : PipelineCall) (t : Tables) → SingleFlight t → SingleFlight (step c t)
unfolding step
step-SingleFlight (acquire_call input clock) t inv = try_acquire-SingleFlight input clock t inv
step-SingleFlight (heartbeat_call holder expires now) t inv =
    heartbeat-SingleFlight holder expires now t inv
step-SingleFlight (release_call input) t inv = release-SingleFlight input t inv

-- From tables in which it is so, and after any sequence of calls of any processes: the runs have
-- distinct numbers, and either the lock is free and no run is running, or exactly one run is, the
-- one that the lock names, and it belongs to the lock's holder.
pub steps-SingleFlight :
    (cs : List PipelineCall) (t : Tables) → SingleFlight t → SingleFlight (steps cs t)
unfolding steps
steps-SingleFlight [] t inv = inv
steps-SingleFlight (c ∷ rest) t inv = steps-SingleFlight rest (step c t) (step-SingleFlight c t inv)
