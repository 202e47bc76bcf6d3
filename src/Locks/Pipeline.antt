-- ===== src/Locks/Pipeline.antt =====
-- administration-repository.ts and administration-types.ts: the singleton lock of the pipeline and
-- its runs. Every operation runs in a transaction that locks the row (SELECT ... FOR UPDATE), so
-- operations follow one another; a thrown error rolls the transaction back. Rows of runs stand
-- newest first and the database numbers them; the database's own clock gives createdAt.

pub mod Runs
pub mod Numbers
pub mod Invariant
pub mod Kept
use radar_ia.Prelude.{
  ℕ, String, Bool, true, false, not, ◌&&◌, Option, none, some, List, [], ◌∷◌, leb, ◌==◌, length,
  is_some, same_text, is_blank, if◌then◌else◌, or_else,
}
use radar_ia.Locks.Inference.{
  AdministrationErrorCode, lock_not_held, lock_holder_mismatch, run_absent, run_not_running,
  forbidden_run_transition, invalid_input, LockResult, ok, err,
}

pub data PipelineRunStatus : Type 0 where
  running completed failed degraded : PipelineRunStatus

-- Exclude<PipelineRunStatus, "running">
pub data FinalStatus : Type 0 where
  final_completed final_failed final_degraded : FinalStatus

pub data PipelineRunTrigger : Type 0 where
  scheduled manual cli : PipelineRunTrigger

abbrev pub status_of : FinalStatus → PipelineRunStatus
status_of final_completed = completed
status_of final_failed = failed
status_of final_degraded = degraded

abbrev pub is_running : PipelineRunStatus → Bool
is_running running = true
is_running _ = false

pub record PipelineRun : Type 0 where
  pub id : ℕ
  pub status : PipelineRunStatus
  pub trigger : PipelineRunTrigger
  pub holder_id : String
  pub started_at : ℕ
  pub finished_at : Option ℕ
  pub heartbeat_at : ℕ
  pub summary : Option String
  pub error_message : Option String
  pub created_at : ℕ

pub record PipelineLock : Type 0 where
  pub run_id : Option ℕ
  pub holder_id : Option String
  pub acquired_at : Option ℕ
  pub heartbeat_at : Option ℕ
  pub expires_at : Option ℕ

-- the two tables; the lock's row is there once the migrations have made it
pub record Tables : Type 0 where
  pub lock : Option PipelineLock
  pub runs : List PipelineRun

pub data AcquirePipelineLockOutcome : Type 0 where
  acquired : PipelineLock → PipelineRun → Bool → Option ℕ → AcquirePipelineLockOutcome
  blocked : PipelineLock → Option PipelineRun → AcquirePipelineLockOutcome

pub record AcquirePipelineLockInput : Type 0 where
  pub holder_id : String
  pub trigger : PipelineRunTrigger
  pub expires_at : ℕ
  pub now : ℕ

-- an absent field is none; a null one is some none
pub record ReleasePipelineLockInput : Type 0 where
  pub holder_id : String
  pub status : FinalStatus
  pub summary : Option (Option String)
  pub error_message : Option (Option String)
  pub finished_at : Option ℕ
  pub now : ℕ

abbrev pub is_lock_held : PipelineLock → Bool
is_lock_held lock = is_some lock.run_id && is_some lock.holder_id

abbrev pub is_past : Option ℕ → ℕ → Bool
is_past none now = true
is_past (some t) now = leb t now

abbrev pub is_lock_expired : PipelineLock → ℕ → Bool
is_lock_expired lock now = if not (is_lock_held lock) then false else is_past lock.expires_at now

-- pipelineRun.findUnique and pipelineRun.update
abbrev pub find_run : ℕ → List PipelineRun → Option PipelineRun
find_run i [] = none
find_run i (r ∷ rest) = let later = find_run i rest in if r.id == i then some r else later

abbrev pub update_run : ℕ → (PipelineRun → PipelineRun) → List PipelineRun → List PipelineRun
update_run i f [] = []
update_run i f (r ∷ rest) =
    let later = update_run i f rest in (if r.id == i then f r else r) ∷ later

abbrev pub find_locked_run : Option ℕ → List PipelineRun → Option PipelineRun
find_locked_run none runs = none
find_locked_run (some i) runs = find_run i runs

abbrev pub stolen_run : ℕ → PipelineRun → PipelineRun
stolen_run now r = record r {
  status = failed;
  finished_at = some now;
  error_message = some "single-flight lock expired (stolen)";
  heartbeat_at = now;
}

-- the run of a displaced holder is closed, if it still runs
abbrev pub close_found : ℕ → Option PipelineRun → List PipelineRun → List PipelineRun
close_found now none runs = runs
close_found now (some stale) runs =
    if is_running stale.status then update_run stale.id (stolen_run now) runs else runs

abbrev pub close_stale : ℕ → Option ℕ → List PipelineRun → List PipelineRun
close_stale now run_id runs = close_found now (find_locked_run run_id runs) runs

abbrev pub new_run : AcquirePipelineLockInput → ℕ → List PipelineRun → PipelineRun
new_run input clock runs = record {
  id = length runs;
  status = running;
  trigger = input.trigger;
  holder_id = input.holder_id;
  started_at = input.now;
  finished_at = none;
  heartbeat_at = input.now;
  summary = none;
  error_message = none;
  created_at = clock;
}

abbrev pub taken_lock : AcquirePipelineLockInput → ℕ → PipelineLock
taken_lock input id = record {
  run_id = some id;
  holder_id = some input.holder_id;
  acquired_at = some input.now;
  heartbeat_at = some input.now;
  expires_at = some input.expires_at;
}

-- the run's row and the lock's row are written; `runs` are the rows after a stale run is closed
abbrev pub start_run :
    AcquirePipelineLockInput
    → ℕ
    → Bool
    → Option ℕ
    → List PipelineRun
    → LockResult AcquirePipelineLockOutcome × Tables
start_run input clock stolen previous runs = (
  ok (acquired (taken_lock input (length runs)) (new_run input clock runs) stolen previous),
  record { lock = some (taken_lock input (length runs)); runs = new_run input clock runs ∷ runs },
)

unfoldable pub acquire_lock :
    AcquirePipelineLockInput
    → ℕ
    → Option PipelineLock
    → List PipelineRun
    → LockResult AcquirePipelineLockOutcome × Tables
acquire_lock input clock none runs = (err invalid_input, record { lock = none; runs = runs })
acquire_lock input clock (some lock) runs =
    if is_lock_held lock && not (is_lock_expired lock input.now)
    then (
      ok (blocked lock (find_locked_run lock.run_id runs)),
      record { lock = some lock; runs = runs },
    )
    else if is_lock_held lock && is_lock_expired lock input.now
    then start_run input clock true lock.run_id (close_stale input.now lock.run_id runs)
    else start_run input clock false none runs

unfoldable pub try_acquire :
    AcquirePipelineLockInput → ℕ → Tables → LockResult AcquirePipelineLockOutcome × Tables
try_acquire input clock t =
    let answer = acquire_lock input clock t.lock t.runs in
    if is_blank input.holder_id then (err invalid_input, t) else answer

abbrev pub heartbeat_row : ℕ → PipelineRun → PipelineRun
heartbeat_row now r = record r { heartbeat_at = now }

abbrev pub renewed : ℕ → ℕ → PipelineLock → PipelineLock
renewed expires now lock = record lock { heartbeat_at = some now; expires_at = some expires }

unfoldable pub heartbeat_run :
    ℕ → ℕ → PipelineLock → Option PipelineRun → List PipelineRun → LockResult PipelineLock × Tables
heartbeat_run expires now lock none runs =
    (err run_absent, record { lock = some lock; runs = runs })
heartbeat_run expires now lock (some run) runs =
    if not (is_running run.status)
    then (err run_not_running, record { lock = some lock; runs = runs })
    else (
      ok (renewed expires now lock),
      record {
        lock = some (renewed expires now lock);
        runs = update_run run.id (heartbeat_row now) runs;
      },
    )

unfoldable pub heartbeat_lock :
    String → ℕ → ℕ → Option PipelineLock → List PipelineRun → LockResult PipelineLock × Tables
heartbeat_lock holder expires now none runs =
    (err lock_not_held, record { lock = none; runs = runs })
heartbeat_lock holder expires now (some lock) runs =
    if not (is_lock_held lock)
    then (err lock_not_held, record { lock = some lock; runs = runs })
    else if not (same_text lock.holder_id (some holder))
    then (err lock_holder_mismatch, record { lock = some lock; runs = runs })
    else heartbeat_run expires now lock (find_locked_run lock.run_id runs) runs

unfoldable pub heartbeat : String → ℕ → ℕ → Tables → LockResult PipelineLock × Tables
heartbeat holder expires now t =
    let answer = heartbeat_lock holder expires now t.lock t.runs in
    if is_blank holder then (err invalid_input, t) else answer

abbrev pub finished_run : ReleasePipelineLockInput → PipelineRun → PipelineRun
finished_run input r = record r {
  status = status_of input.status;
  finished_at = some (or_else input.finished_at input.now);
  heartbeat_at = input.now;
  summary = or_else input.summary r.summary;
  error_message = or_else input.error_message r.error_message;
}

abbrev pub free_lock : PipelineLock
free_lock = record {
  run_id = none;
  holder_id = none;
  acquired_at = none;
  heartbeat_at = none;
  expires_at = none;
}

unfoldable pub release_run :
    ReleasePipelineLockInput
    → PipelineLock
    → Option PipelineRun
    → List PipelineRun
    → LockResult (PipelineLock × PipelineRun) × Tables
release_run input lock none runs = (err run_absent, record { lock = some lock; runs = runs })
release_run input lock (some run) runs =
    if not (is_running run.status)
    then (err forbidden_run_transition, record { lock = some lock; runs = runs })
    else (
      ok (free_lock, finished_run input run),
      record { lock = some free_lock; runs = update_run run.id (finished_run input) runs },
    )

unfoldable pub release_lock :
    ReleasePipelineLockInput
    → Option PipelineLock
    → List PipelineRun
    → LockResult (PipelineLock × PipelineRun) × Tables
release_lock input none runs = (err lock_not_held, record { lock = none; runs = runs })
release_lock input (some lock) runs =
    if not (is_lock_held lock)
    then (err lock_not_held, record { lock = some lock; runs = runs })
    else if not (same_text lock.holder_id (some input.holder_id))
    then (err lock_holder_mismatch, record { lock = some lock; runs = runs })
    else release_run input lock (find_locked_run lock.run_id runs) runs

unfoldable pub release :
    ReleasePipelineLockInput → Tables → LockResult (PipelineLock × PipelineRun) × Tables
release input t =
    let answer = release_lock input t.lock t.runs in
    if is_blank input.holder_id then (err invalid_input, t) else answer

-- an operation of some process; the acquiring one carries the database's clock
pub data PipelineCall : Type 0 where
  acquire_call : AcquirePipelineLockInput → ℕ → PipelineCall
  heartbeat_call : String → ℕ → ℕ → PipelineCall
  release_call : ReleasePipelineLockInput → PipelineCall

unfoldable pub step : PipelineCall → Tables → Tables
step (acquire_call input clock) t = (try_acquire input clock t).1
step (heartbeat_call holder expires now) t = (heartbeat holder expires now t).1
step (release_call input) t = (release input t).1

unfoldable pub steps : List PipelineCall → Tables → Tables
steps [] t = t
steps (c ∷ rest) t = steps rest (step c t)
