-- ===== src/Locks/Pipeline/Numbers.antt =====
-- The runs keep their numbers under every operation, whatever the lock says.
use radar_ia.Prelude.{refl, ℕ, String, Option, none, some, List, arith, Bool-cases, inl, inr}
use radar_ia.Locks.Pipeline.{
  PipelineRun, PipelineLock, AcquirePipelineLockInput, ReleasePipelineLockInput, Tables, is_running,
  find_run, find_locked_run, stolen_run, close_found, close_stale, acquire_lock, try_acquire,
  heartbeat_row, heartbeat_run, heartbeat_lock, heartbeat, finished_run, release_run, release_lock,
  release, PipelineCall, acquire_call, heartbeat_call, release_call, step,
}
use radar_ia.Locks.Pipeline.Runs.{Numbered, update_run-Numbered}

pub close_stale-Numbered :
    (now : ℕ) (o : Option ℕ) (runs : List PipelineRun)
    → Numbered runs
    → Numbered (close_stale now o runs)
close_stale-Numbered now none runs n = n
close_stale-Numbered now (some i) runs n = go (find_run i runs)
  where
    go : (found : Option PipelineRun) → Numbered (close_found now found runs)
    go none = n
    go (some stale) = elim (Bool-cases (is_running stale.status)) [
      | inl on ↦ rw on (update_run-Numbered stale.id (stolen_run now) runs (λ r. refl) n)
      | inr off ↦ rw off n
    ]

acquire_lock-Numbered :
    (input : AcquirePipelineLockInput) (clock : ℕ) (lock : Option PipelineLock)
    (runs : List PipelineRun)
    → Numbered runs
    → Numbered (acquire_lock input clock lock runs).1.runs
unfolding acquire_lock
acquire_lock-Numbered input clock none runs n = n
acquire_lock-Numbered input clock (some lock) runs n =
    ground (arith, n, close_stale-Numbered input.now lock.run_id runs n)

heartbeat_run-Numbered :
    (expires now : ℕ) (lock : PipelineLock) (run : Option PipelineRun) (runs : List PipelineRun)
    → Numbered runs
    → Numbered (heartbeat_run expires now lock run runs).1.runs
unfolding heartbeat_run
heartbeat_run-Numbered expires now lock none runs n = n
heartbeat_run-Numbered expires now lock (some run) runs n =
    ground (arith, n, update_run-Numbered run.id (heartbeat_row now) runs (λ r. refl) n)

heartbeat_lock-Numbered :
    (holder : String) (expires now : ℕ) (lock : Option PipelineLock) (runs : List PipelineRun)
    → Numbered runs
    → Numbered (heartbeat_lock holder expires now lock runs).1.runs
unfolding heartbeat_lock
heartbeat_lock-Numbered holder expires now none runs n = n
heartbeat_lock-Numbered holder expires now (some lock) runs n =
    ground
      (arith, n, heartbeat_run-Numbered expires now lock (find_locked_run lock.run_id runs) runs n)

release_run-Numbered :
    (input : ReleasePipelineLockInput) (lock : PipelineLock) (run : Option PipelineRun)
    (runs : List PipelineRun)
    → Numbered runs
    → Numbered (release_run input lock run runs).1.runs
unfolding release_run
release_run-Numbered input lock none runs n = n
release_run-Numbered input lock (some run) runs n =
    ground (arith, n, update_run-Numbered run.id (finished_run input) runs (λ r. refl) n)

release_lock-Numbered :
    (input : ReleasePipelineLockInput) (lock : Option PipelineLock) (runs : List PipelineRun)
    → Numbered runs
    → Numbered (release_lock input lock runs).1.runs
unfolding release_lock
release_lock-Numbered input none runs n = n
release_lock-Numbered input (some lock) runs n =
    ground (arith, n, release_run-Numbered input lock (find_locked_run lock.run_id runs) runs n)

pub step-Numbered : (c : PipelineCall) (t : Tables) → Numbered t.runs → Numbered (step c t).runs
unfolding step try_acquire heartbeat release
step-Numbered (acquire_call input clock) t n =
    ground (arith, n, acquire_lock-Numbered input clock t.lock t.runs n)
step-Numbered (heartbeat_call holder expires now) t n =
    ground (arith, n, heartbeat_lock-Numbered holder expires now t.lock t.runs n)
step-Numbered (release_call input) t n =
    ground (arith, n, release_lock-Numbered input t.lock t.runs n)
