-- ===== src/Locks/Audit.antt =====
-- administration-repository.ts: the log of administrative operations.
pub mod Lists
pub mod Filters
pub mod Order
pub mod Known
use radar_ia.Prelude.{
  ℕ, String, Bool, true, false, not, ◌&&◌, Option, none, some, List, [], ◌∷◌, leb, ltb, ◌==◌,
  length, head?, filter, take, str_eq, is_blank, if◌then◌else◌, or_else,
}
use radar_ia.Prelude.Sort.{sort_by}
use radar_ia.Locks.Inference.{
  AdministrationErrorCode, run_absent, invalid_input, LockResult, ok, err,
}
use radar_ia.Locks.Pipeline.{
  PipelineRun, PipelineLock, PipelineRunStatus, running, completed, failed, degraded, Tables,
  find_run, PipelineCall, step,
}

pub data AdminOperationKind : Type 0 where
  run_cycle collect_source force_reanalysis resume_publication force_retry_publication reconcile
        force_republish set_folder_status reconcile_ids clear_source_backoff :
      AdminOperationKind

pub data AdminOperationOutcome : Type 0 where
  accepted rejected succeeded op_failed skipped : AdminOperationOutcome

pub record AdminOperation : Type 0 where
  pub id : ℕ
  pub actor_id : String
  pub kind : AdminOperationKind
  pub target : String
  pub outcome : AdminOperationOutcome
  pub detail : Option String
  pub pipeline_run_id : Option ℕ
  pub requested_at : ℕ
  pub created_at : ℕ

-- a run's identifier as the caller gives it
pub data RunReference : Type 0 where
  no_run blank_id : RunReference
  run_ref : ℕ → RunReference

pub record RecordAdminOperationInput : Type 0 where
  pub actor_id : String
  pub kind : AdminOperationKind
  pub target : Option String
  pub outcome : AdminOperationOutcome
  pub detail : Option String
  pub pipeline_run_id : RunReference
  pub requested_at : Option ℕ

-- the three tables of this file of the repository
pub record Administration : Type 0 where
  pub tables : Tables
  pub operations : List AdminOperation

abbrev pub new_operation :
    RecordAdminOperationInput → String → Option ℕ → ℕ → List AdminOperation → AdminOperation
new_operation input target run clock ops = record {
  id = length ops;
  actor_id = input.actor_id;
  kind = input.kind;
  target = target;
  outcome = input.outcome;
  detail = input.detail;
  pipeline_run_id = run;
  requested_at = or_else input.requested_at clock;
  created_at = clock;
}

abbrev pub append_operation :
    RecordAdminOperationInput
    → String
    → Option ℕ
    → ℕ
    → Administration
    → LockResult AdminOperation × Administration
append_operation input target run clock a = (
  ok (new_operation input target run clock a.operations),
  record a { operations = new_operation input target run clock a.operations ∷ a.operations },
)

abbrev pub append_found :
    RecordAdminOperationInput
    → String
    → ℕ
    → ℕ
    → Administration
    → Option PipelineRun
    → LockResult AdminOperation × Administration
append_found input target run clock a none = (err run_absent, a)
append_found input target run clock a (some r) = append_operation input target (some run) clock a

-- the check of the run, then the insertion
unfoldable pub insert_operation :
    RecordAdminOperationInput
    → String
    → RunReference
    → ℕ
    → Administration
    → LockResult AdminOperation × Administration
insert_operation input target no_run clock a = append_operation input target none clock a
insert_operation input target blank_id clock a = (err invalid_input, a)
insert_operation input target (run_ref i) clock a =
    append_found input target i clock a (find_run i a.tables.runs)

abbrev pub with_target :
    RecordAdminOperationInput
    → Option String
    → ℕ
    → Administration
    → LockResult AdminOperation × Administration
with_target input none clock a = (err invalid_input, a)
with_target input (some target) clock a =
    insert_operation input target input.pipeline_run_id clock a

unfoldable pub record_operation :
    RecordAdminOperationInput → ℕ → Administration → LockResult AdminOperation × Administration
record_operation input clock a =
    let answer = with_target input input.target clock a in
    if is_blank input.actor_id then (err invalid_input, a) else answer
