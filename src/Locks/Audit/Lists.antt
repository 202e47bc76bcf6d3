-- ===== src/Locks/Audit/Lists.antt =====
-- administration-repository.ts: the operations that read the lock, the runs and the log. The database
-- orders identifiers by their texts: `id_le i j` says that row j's text is not after row i's.
use radar_ia.Prelude.{
  ℕ, String, Bool, true, false, ◌&&◌, Option, none, some, List, ltb, ◌==◌, head?, filter, take,
  str_eq, if◌then◌else◌, or_else,
}
use radar_ia.Prelude.Sort.{sort_by}
use radar_ia.Locks.Inference.{invalid_input, LockResult, ok, err}
use radar_ia.Locks.Pipeline.{
  PipelineRun, PipelineLock, PipelineRunStatus, running, completed, failed, degraded,
}
use radar_ia.Locks.Audit.{
  AdminOperation, AdminOperationKind, AdminOperationOutcome, run_cycle, collect_source,
  force_reanalysis, resume_publication, force_retry_publication, reconcile, force_republish,
  set_folder_status, reconcile_ids, clear_source_backoff, accepted, rejected, succeeded, op_failed,
  skipped,
}

-- `getLock`
unfoldable pub get_lock : Option PipelineLock → LockResult PipelineLock
get_lock none = err invalid_input
get_lock (some lock) = ok lock

-- the code of a value of an enumeration, to compare values
abbrev pub status_code : PipelineRunStatus → ℕ
status_code running = 0
status_code completed = 1
status_code failed = 2
status_code degraded = 3

abbrev pub kind_code : AdminOperationKind → ℕ
kind_code run_cycle = 0
kind_code collect_source = 1
kind_code force_reanalysis = 2
kind_code resume_publication = 3
kind_code force_retry_publication = 4
kind_code reconcile = 5
kind_code force_republish = 6
kind_code set_folder_status = 7
kind_code reconcile_ids = 8
kind_code clear_source_backoff = 9

abbrev pub outcome_code : AdminOperationOutcome → ℕ
outcome_code accepted = 0
outcome_code rejected = 1
outcome_code succeeded = 2
outcome_code op_failed = 3
outcome_code skipped = 4

-- a column against an optional filter
abbrev pub fits_status : Option PipelineRunStatus → PipelineRunStatus → Bool
fits_status none s = true
fits_status (some wanted) s = status_code wanted == status_code s

abbrev pub fits_kind : Option AdminOperationKind → AdminOperationKind → Bool
fits_kind none k = true
fits_kind (some wanted) k = kind_code wanted == kind_code k

abbrev pub fits_outcome : Option AdminOperationOutcome → AdminOperationOutcome → Bool
fits_outcome none o = true
fits_outcome (some wanted) o = outcome_code wanted == outcome_code o

abbrev pub fits_text : Option String → String → Bool
fits_text none s = true
fits_text (some wanted) s = str_eq wanted s

abbrev pub fits_operation :
    Option String → Option AdminOperationKind → Option AdminOperationOutcome → AdminOperation → Bool
fits_operation actor kind outcome o =
    fits_text actor o.actor_id && fits_kind kind o.kind && fits_outcome outcome o.outcome

-- a pair of times, newest first, ties by the identifiers
abbrev pub newest : (ℕ → ℕ → Bool) → ℕ → ℕ → ℕ → ℕ → ℕ → ℕ → Bool
newest id_le time created id time' created' id' =
    if ltb time' time
    then true
    else if ltb time time'
    then false
    else if ltb created' created
    then true
    else if ltb created created'
    then false
    else id_le id id'

module _ (id_le : ℕ → ℕ → Bool) where
  abbrev pub newer_run : PipelineRun → PipelineRun → Bool
  newer_run a b = newest id_le a.started_at a.created_at a.id b.started_at b.created_at b.id

  -- `getLatestRun`
  unfoldable pub get_latest_run : List PipelineRun → Option PipelineRun
  get_latest_run runs = head? (sort_by newer_run runs)

  -- `listRuns`: the limit, 50 when absent, must be positive
  unfoldable pub list_runs :
      Option ℕ → Option PipelineRunStatus → List PipelineRun → LockResult (List PipelineRun)
  list_runs limit status runs =
      let wanted = filter (λ r. fits_status status r.status) runs in
      if or_else limit 50 == 0
      then err invalid_input
      else ok (take (or_else limit 50) (sort_by newer_run wanted))

  abbrev pub newer_operation : AdminOperation → AdminOperation → Bool
  newer_operation a b =
      newest id_le a.requested_at a.created_at a.id b.requested_at b.created_at b.id

  -- `listOperations`
  unfoldable pub list_operations :
      Option ℕ
      → Option String
      → Option AdminOperationKind
      → Option AdminOperationOutcome
      → List AdminOperation
      → LockResult (List AdminOperation)
  list_operations limit actor kind outcome ops =
      let wanted = filter (λ o. fits_operation actor kind outcome o) ops in
      if or_else limit 50 == 0
      then err invalid_input
      else ok (take (or_else limit 50) (sort_by newer_operation wanted))
