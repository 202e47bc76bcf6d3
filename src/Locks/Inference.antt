-- ===== src/Locks/Inference.antt =====
-- inference-lock-repository.ts: the single row that says which process runs the local model. Each
-- operation locks the row (SELECT ... FOR UPDATE), so operations follow one another.
pub mod Held
use radar_ia.Prelude.{
  ℕ, String, Bool, true, false, not, ◌&&◌, Option, none, some, List, [], ◌∷◌, leb, is_some,
  same_text, is_blank, if◌then◌else◌,
}

pub data AdministrationErrorCode : Type 0 where
  lock_held lock_not_held lock_holder_mismatch run_absent run_not_running forbidden_run_transition
        invalid_input :
      AdministrationErrorCode

-- the columns; the id is the constant "ollama"
pub record InferenceLock : Type 0 where
  pub holder_id : Option String
  pub acquired_at : Option ℕ
  pub expires_at : Option ℕ
  pub heartbeat_at : Option ℕ

pub data AcquireOutcome : Type 0 where
  acquired : InferenceLock → Bool → AcquireOutcome
  blocked : InferenceLock → AcquireOutcome

pub data LockResult (A : Type 0) : Type 0 where
  ok : A → LockResult A
  err : AdministrationErrorCode → LockResult A

abbrev pub is_held : InferenceLock → Bool
is_held lock = is_some lock.holder_id

-- the end of a held lock; one without end counts as past it
abbrev pub is_over : Option ℕ → ℕ → Bool
is_over none now = true
is_over (some t) now = leb t now

abbrev pub is_expired : InferenceLock → ℕ → Bool
is_expired lock now = if not (is_held lock) then false else is_over lock.expires_at now

-- the table: its row, if the migrations have made it
abbrev pub Table : Type 0
Table = Option InferenceLock

abbrev pub taken : String → ℕ → ℕ → InferenceLock
taken holder expires now = record {
  holder_id = some holder;
  acquired_at = some now;
  expires_at = some expires;
  heartbeat_at = some now;
}

unfoldable pub acquire_row : String → ℕ → ℕ → Table → LockResult AcquireOutcome × Table
acquire_row holder expires now none = (err invalid_input, none)
acquire_row holder expires now (some lock) =
    if is_held lock && not (is_expired lock now) then (ok (blocked lock), some lock) else (
      ok (acquired (taken holder expires now) (is_held lock && is_expired lock now)),
      some (taken holder expires now),
    )

unfoldable pub try_acquire : String → ℕ → ℕ → Table → LockResult AcquireOutcome × Table
try_acquire holder expires now t =
    let row = acquire_row holder expires now t in
    if is_blank holder then (err invalid_input, t) else row

abbrev pub freed : ℕ → InferenceLock
freed now = record {
  holder_id = none;
  acquired_at = none;
  expires_at = none;
  heartbeat_at = some now;
}

unfoldable pub release_row : String → ℕ → Table → LockResult InferenceLock × Table
release_row holder now none = (err lock_not_held, none)
release_row holder now (some lock) =
    if not (is_held lock)
    then (err lock_not_held, some lock)
    else if not (same_text lock.holder_id (some holder))
    then (err lock_holder_mismatch, some lock)
    else (ok (freed now), some (freed now))

unfoldable pub release : String → ℕ → Table → LockResult InferenceLock × Table
release holder now t =
    let row = release_row holder now t in if is_blank holder then (err invalid_input, t) else row

-- an operation of some process, with its time
pub data LockCall : Type 0 where
  acquire_call : String → ℕ → ℕ → LockCall
  release_call : String → ℕ → LockCall

unfoldable pub step : LockCall → Table → Table
step (acquire_call holder expires now) t = (try_acquire holder expires now t).1
step (release_call holder now) t = (release holder now t).1

unfoldable pub steps : List LockCall → Table → Table
steps [] t = t
steps (c ∷ rest) t = steps rest (step c t)
