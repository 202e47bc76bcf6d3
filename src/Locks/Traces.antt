-- ===== src/Locks/Traces.antt =====
-- Instances of the results on the pipeline's lock, its runs and the log.
use radar_ia.Prelude.{◌≡◌, refl, ℕ, none, some, List, [], ◌∷◌, map, arith, leb}
use radar_ia.Locks.Inference.{taken, LockCall, ok}
use radar_ia.Locks.Inference as Inference
use radar_ia.Locks.Pipeline.{
  PipelineRun, running, completed, final_completed, scheduled, manual, Tables, free_lock,
  taken_lock, AcquirePipelineLockInput, ReleasePipelineLockInput, PipelineCall, acquire_call,
  heartbeat_call, release_call, steps, find_run,
}
use radar_ia.Locks.Pipeline.Invariant.{SingleFlight, steps-SingleFlight}
use radar_ia.Locks.Pipeline.Kept.{find_run-steps}
use radar_ia.Locks.Lease.{answers, runs, refused}
use radar_ia.Locks.Refinement.OfInference as OfInference
use radar_ia.Locks.Refinement.OfInference.{inference_lock, runs-inference_lock}
use radar_ia.Locks.Refinement.OfPipeline.{asked, view_row}
use radar_ia.Locks.Refinement.OfPipeline.Answers.{pipeline_lock, runs-pipeline_lock, runs-refused}
use radar_ia.Locks.Audit.{
  Administration, AdminOperation, RecordAdminOperationInput, run_cycle, collect_source, succeeded,
  accepted, run_ref,
}
use radar_ia.Locks.Audit.Lists.{list_operations}
use radar_ia.Locks.Audit.Known.{
  AllKnown, pipeline, recording, AdministrationCall, administers, administers-AllKnown,
}
use radar_ia.Locks.Audit.Order.{IsListing, list_operations-IsListing}

abbrev by_one : AcquirePipelineLockInput
by_one = record { holder_id = "one"; trigger = scheduled; expires_at = 40; now = 10 }

abbrev by_two : AcquirePipelineLockInput
by_two = record { holder_id = "two"; trigger = manual; expires_at = 90; now = 50 }

abbrev two_done : ReleasePipelineLockInput
two_done = record {
  holder_id = "two";
  status = final_completed;
  summary = none;
  error_message = none;
  finished_at = none;
  now = 60;
}

-- the run of "one" is stolen by "two", who renews and ends it
abbrev calls : List PipelineCall
calls =
    acquire_call by_one 10
    ∷ acquire_call by_two 50
    ∷ heartbeat_call "two" 99 55
    ∷ heartbeat_call "one" 99 56
    ∷ release_call two_done
    ∷ []

abbrev fresh : Tables
fresh = record { lock = some free_lock; runs = [] }

steps-SingleFlight_example : SingleFlight (steps calls fresh)
steps-SingleFlight_example = steps-SingleFlight calls fresh (tt, refl)

abbrev first_run : PipelineRun
first_run = record {
  id = 0;
  status = completed;
  trigger = manual;
  holder_id = "one";
  started_at = 1;
  finished_at = some 2;
  heartbeat_at = 2;
  summary = none;
  error_message = none;
  created_at = 1;
}

-- the lock still names the run that has ended
abbrev after_first : Tables
after_first = record { lock = some (taken_lock by_one 0); runs = first_run ∷ [] }

find_run-steps_example : find_run 0 (steps calls after_first).runs ≡ some first_run
find_run-steps_example = find_run-steps calls after_first 0 first_run (refl, tt) refl refl

abbrev inference_calls : List LockCall
inference_calls =
    Inference.acquire_call "two" 90 20
    ∷ Inference.release_call "one" 30
    ∷ Inference.acquire_call "two" 99 39
    ∷ []

runs-inference_lock_example :
    ◌≡◌ {A = _}
      (
        (runs inference_lock inference_calls (some (taken "one" 40 10))).0,
        OfInference.view (runs inference_lock inference_calls (some (taken "one" 40 10))).1,
      )
      (answers (map OfInference.asked inference_calls) (some ("one", some 40)))
runs-inference_lock_example = runs-inference_lock inference_calls (some (taken "one" 40 10)) refl

runs-pipeline_lock_example :
    ◌≡◌ {A = _}
      ((runs pipeline_lock calls fresh).0, view_row (runs pipeline_lock calls fresh).1.lock)
      (answers (map asked calls) none)
runs-pipeline_lock_example = runs-pipeline_lock calls fresh ((tt, refl), refl)

abbrev running_run : PipelineRun
running_run = record first_run { status = running; finished_at = none }

abbrev while_one : Tables
while_one = record { lock = some (taken_lock by_one 0); runs = running_run ∷ [] }

abbrev early : AcquirePipelineLockInput
early = record by_two { now = 39 }

abbrev foreign_calls : List PipelineCall
foreign_calls = acquire_call early 39 ∷ heartbeat_call "two" 99 38 ∷ release_call two_done ∷ []

runs-refused_example :
    ((runs pipeline_lock foreign_calls while_one).0 ≡ refused (map asked foreign_calls))
    × (view_row (runs pipeline_lock foreign_calls while_one).1.lock ≡ some ("one", some 40))
runs-refused_example =
    runs-refused foreign_calls while_one "one" 40
      (((refl, tt), (running_run, refl, refl, refl)), refl) refl (omega arith, (refl, (refl, tt)))

abbrev cycle_input : RecordAdminOperationInput
cycle_input = record {
  actor_id = "cli";
  kind = run_cycle;
  target = some "{}";
  outcome = accepted;
  detail = none;
  pipeline_run_id = run_ref 0;
  requested_at = none;
}

abbrev administration_calls : List AdministrationCall
administration_calls =
    recording cycle_input 5 ∷ pipeline (acquire_call by_one 10) ∷ recording cycle_input 12 ∷ []

abbrev fresh_administration : Administration
fresh_administration = record { tables = fresh; operations = [] }

administers-AllKnown_example :
    AllKnown
      (administers administration_calls fresh_administration).tables.runs
      (administers administration_calls fresh_administration).operations
administers-AllKnown_example = administers-AllKnown administration_calls fresh_administration tt

abbrev logged : ℕ → AdminOperation
logged t = record {
  id = t;
  actor_id = "cli";
  kind = collect_source;
  target = "{}";
  outcome = succeeded;
  detail = none;
  pipeline_run_id = none;
  requested_at = t;
  created_at = 9;
}

abbrev log : List AdminOperation
log = logged 3 ∷ logged 7 ∷ logged 5 ∷ []

list_operations-IsListing_example :
    (listed : List AdminOperation) × (list_operations leb (some 2) (some "cli") none none log
      ≡ ok listed)
    × IsListing leb 2 (some "cli") none none log listed
list_operations-IsListing_example =
    list_operations-IsListing leb (λ i j h. ground arith) (λ i j k h l. ground arith) (some 2)
      (some "cli") none none log (omega arith)
