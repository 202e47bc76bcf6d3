-- ===== src/Locks/Refinement/OfPipeline/Rows.antt =====
-- The operations on the lock's row against the operations on the lease.
use radar_ia.Prelude.{◌≡◌, sym, ℕ, String, Option, none, some, List, arith}
use radar_ia.Locks.Pipeline.{
  PipelineRun, PipelineLock, AcquirePipelineLockInput, ReleasePipelineLockInput, acquire_lock,
  heartbeat_run, heartbeat_lock, release_run, release_lock,
}
use radar_ia.Locks.Pipeline.Runs.{Numbered, find_run-active, active-running}
use radar_ia.Locks.Pipeline.Invariant.{Fits}
use radar_ia.Locks.Lease.{take_lease, renew_lease, end_lease, runs}
use radar_ia.Locks.Refinement.OfInference.{lease_of}
use radar_ia.Locks.Refinement.OfPipeline.{has_acquired, has_done, view_row}

pub acquire_lock-take :
    (input : AcquirePipelineLockInput) (clock : ℕ) (lock : PipelineLock) (o : Option ℕ)
    (h : Option String) (runs : List PipelineRun)
    → lock.run_id ≡ o
    → lock.holder_id ≡ h
    → Fits o h runs
    → (
      has_acquired (acquire_lock input clock (some lock) runs).0,
      view_row (acquire_lock input clock (some lock) runs).1.lock,
    )
      ≡ take_lease input.holder_id input.expires_at input.now (lease_of h lock.expires_at)
unfolding acquire_lock take_lease
acquire_lock-take input clock lock none none runs eo eh fits = ground arith
acquire_lock-take input clock lock (some i) (some h) runs eo eh fits = ground arith
acquire_lock-take input clock lock none (some h) runs eo eh fits = absurd fits
acquire_lock-take input clock lock (some i) none runs eo eh fits = absurd fits

pub heartbeat_lock-renew :
    (holder : String) (expires now : ℕ) (lock : PipelineLock) (o : Option ℕ) (h : Option String)
    (runs : List PipelineRun)
    → lock.run_id ≡ o
    → lock.holder_id ≡ h
    → Numbered runs
    → Fits o h runs
    → (
      has_done (heartbeat_lock holder expires now (some lock) runs).0,
      view_row (heartbeat_lock holder expires now (some lock) runs).1.lock,
    )
      ≡ renew_lease holder expires (lease_of h lock.expires_at)
unfolding heartbeat_lock heartbeat_run renew_lease
heartbeat_lock-renew holder expires now lock none none runs eo eh n fits = ground arith
heartbeat_lock-renew holder expires now lock (some i) (some h) runs eo eh n fits = rw eo (
    rw eh (
      rw (sym fits.2) (
        rw (find_run-active runs fits.0 n fits.1)
          (rw (active-running runs fits.0 fits.1) (ground arith)))))
heartbeat_lock-renew holder expires now lock none (some h) runs eo eh n fits = absurd fits
heartbeat_lock-renew holder expires now lock (some i) none runs eo eh n fits = absurd fits

pub release_lock-give_back :
    (input : ReleasePipelineLockInput) (lock : PipelineLock) (o : Option ℕ) (h : Option String)
    (runs : List PipelineRun)
    → lock.run_id ≡ o
    → lock.holder_id ≡ h
    → Numbered runs
    → Fits o h runs
    → (
      has_done (release_lock input (some lock) runs).0,
      view_row (release_lock input (some lock) runs).1.lock,
    )
      ≡ end_lease input.holder_id (lease_of h lock.expires_at)
unfolding release_lock release_run end_lease
release_lock-give_back input lock none none runs eo eh n fits = ground arith
release_lock-give_back input lock (some i) (some h) runs eo eh n fits = rw eo (
    rw eh (
      rw (sym fits.2) (
        rw (find_run-active runs fits.0 n fits.1)
          (rw (active-running runs fits.0 fits.1) (ground arith)))))
release_lock-give_back input lock none (some h) runs eo eh n fits = absurd fits
release_lock-give_back input lock (some i) none runs eo eh n fits = absurd fits
