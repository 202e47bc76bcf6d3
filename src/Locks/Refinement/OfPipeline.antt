-- ===== src/Locks/Refinement/OfPipeline.antt =====
-- The pipeline lock's row, with the rows of its runs, read as a lease.
pub mod Rows
pub mod Answers
use radar_ia.Prelude.{
  ◌≡◌, refl, sym, ℕ, String, Bool, true, false, Option, none, some, List, [], ◌∷◌, arith, is_some,
  leb, map, All, str_eq, is_blank, Bool-cases, inl, inr,
}
use radar_ia.Locks.Inference.{LockResult, ok, err}
use radar_ia.Locks.Pipeline.{
  PipelineRun, PipelineLock, Tables, AcquirePipelineLockInput, ReleasePipelineLockInput,
  AcquirePipelineLockOutcome, acquired, blocked, is_past, acquire_lock, try_acquire, heartbeat_run,
  heartbeat_lock, heartbeat, release_run, release_lock, release, start_run, PipelineCall, step,
  acquire_call, heartbeat_call, release_call,
}
use radar_ia.Locks.Pipeline.Runs.{Numbered, find_run-active, active-running}
use radar_ia.Locks.Pipeline.Invariant.{SingleFlight, Fits, LockFits, step-SingleFlight}
use radar_ia.Locks.Lease.{
  Lease, LeaseCall, take, renew, give_back, answer, answers, take_lease, renew_lease, end_lease,
  is_over, Implementation, runs, runs-answers, Foreign, refused, answers-refused,
}
use radar_ia.Locks.Refinement.OfInference.{lease_of}

abbrev pub has_acquired : LockResult AcquirePipelineLockOutcome → Bool
has_acquired (ok (acquired lock run stolen previous)) = true
has_acquired _ = false

abbrev pub has_done : {A : Type 0} → LockResult A → Bool
has_done (ok a) = true
has_done (err e) = false

abbrev pub view_row : Option PipelineLock → Lease
view_row none = none
view_row (some lock) = lease_of lock.holder_id lock.expires_at

abbrev pub asked : PipelineCall → LeaseCall
asked (acquire_call input clock) = take input.holder_id input.expires_at input.now
asked (heartbeat_call holder expires now) = renew holder expires
asked (release_call input) = give_back input.holder_id

abbrev pub run : PipelineCall → Tables → Bool × Tables
run (acquire_call input clock) t =
    (has_acquired (try_acquire input clock t).0, (try_acquire input clock t).1)
run (heartbeat_call holder expires now) t =
    (has_done (heartbeat holder expires now t).0, (heartbeat holder expires now t).1)
run (release_call input) t = (has_done (release input t).0, (release input t).1)

-- the migrations have made the row, and it fits the runs
abbrev pub Reached : Tables → Type 0
Reached t = SingleFlight t × (is_some t.lock ≡ true)
