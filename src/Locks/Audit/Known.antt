-- ===== src/Locks/Audit/Known.antt =====
-- The runs that logged operations name.
use radar_ia.Prelude.{
  ◌≡◌, refl, ℕ, String, true, Option, none, some, List, [], ◌∷◌, All, arith, is_some, is_blank,
  Bool-cases, inl, inr,
}
use radar_ia.Locks.Pipeline.{
  PipelineRun, PipelineLock, Tables, find_run, find_locked_run, update_run, close_found,
  close_stale, stolen_run, acquire_lock, try_acquire, heartbeat_row, heartbeat_run, heartbeat_lock,
  heartbeat, finished_run, release_run, release_lock, release, PipelineCall, acquire_call,
  heartbeat_call, release_call, step,
}
use radar_ia.Locks.Audit.{
  Administration, AdminOperation, RecordAdminOperationInput, RunReference, no_run, blank_id,
  run_ref, append_found, insert_operation, with_target, record_operation,
}

-- an operation of the pipeline's lock, or the recording of an administrative operation
pub data AdministrationCall : Type 0 where
  pipeline : PipelineCall → AdministrationCall
  recording : RecordAdminOperationInput → ℕ → AdministrationCall

unfoldable pub administer : AdministrationCall → Administration → Administration
administer (pipeline c) a = record a { tables = step c a.tables }
administer (recording input clock) a = (record_operation input clock a).1

unfoldable pub administers : List AdministrationCall → Administration → Administration
administers [] a = a
administers (c ∷ rest) a = administers rest (administer c a)

-- the reference is absent or to a row
abbrev pub Known : List PipelineRun → Option ℕ → Type 0
Known runs none = Unit
Known runs (some i) = is_some (find_run i runs) ≡ true

abbrev pub AllKnown : List PipelineRun → List AdminOperation → Type 0
AllKnown runs ops = All (λ o. Known runs o.pipeline_run_id) ops

-- no row of the one table is missing in the other
abbrev pub Grows : List PipelineRun → List PipelineRun → Type 0
Grows old new = (i : ℕ) → is_some (find_run i old) ≡ true → is_some (find_run i new) ≡ true

update_run-Grows :
    (j : ℕ) (f : PipelineRun → PipelineRun) (runs : List PipelineRun)
    → ((r : PipelineRun) → (f r).id ≡ r.id)
    → Grows runs (update_run j f runs)
update_run-Grows j f [] keep i h = h
update_run-Grows j f (r ∷ rest) keep i h = ground (arith, keep r, update_run-Grows j f rest keep i)

close_stale-Grows :
    (now : ℕ) (o : Option ℕ) (runs : List PipelineRun) → Grows runs (close_stale now o runs)
close_stale-Grows now o runs i h = go (find_locked_run o runs)
  where
    go : (found : Option PipelineRun) → is_some (find_run i (close_found now found runs)) ≡ true
    go none = h
    go (some stale) =
        ground (arith, update_run-Grows stale.id (stolen_run now) runs (λ r. refl) i h)

step-Grows : (c : PipelineCall) (t : Tables) → Grows t.runs (step c t).runs
unfolding step try_acquire acquire_lock heartbeat heartbeat_lock heartbeat_run release release_lock
    release_run
step-Grows (acquire_call input clock) t i h = elim (Bool-cases (is_blank input.holder_id)) [
  | inl blank ↦ rw (blank, is_some) h
  | inr filled ↦ rw (filled, is_some) (go t.lock)
]
  where
    go :
        (o : Option PipelineLock)
        → is_some (find_run i (acquire_lock input clock o t.runs).1.runs) ≡ true
    go none = h
    go (some lock) = ground (arith, h, close_stale-Grows input.now lock.run_id t.runs i h)
step-Grows (heartbeat_call holder expires now) t i h = elim (Bool-cases (is_blank holder)) [
  | inl blank ↦ rw (blank, is_some) h
  | inr filled ↦ rw (filled, is_some) (go t.lock)
]
  where
    on_run :
        (lock : PipelineLock) (o : Option PipelineRun)
        → is_some (find_run i (heartbeat_run expires now lock o t.runs).1.runs) ≡ true
    on_run lock none = h
    on_run lock (some r) =
        ground (arith, h, update_run-Grows r.id (heartbeat_row now) t.runs (λ r. refl) i h)

    go :
        (o : Option PipelineLock)
        → is_some (find_run i (heartbeat_lock holder expires now o t.runs).1.runs) ≡ true
    go none = h
    go (some lock) = ground (arith, h, on_run lock (find_locked_run lock.run_id t.runs))
step-Grows (release_call input) t i h = elim (Bool-cases (is_blank input.holder_id)) [
  | inl blank ↦ rw (blank, is_some) h
  | inr filled ↦ rw (filled, is_some) (go t.lock)
]
  where
    on_run :
        (lock : PipelineLock) (o : Option PipelineRun)
        → is_some (find_run i (release_run input lock o t.runs).1.runs) ≡ true
    on_run lock none = h
    on_run lock (some r) =
        ground (arith, h, update_run-Grows r.id (finished_run input) t.runs (λ r. refl) i h)

    go :
        (o : Option PipelineLock) → is_some (find_run i (release_lock input o t.runs).1.runs) ≡ true
    go none = h
    go (some lock) = ground (arith, h, on_run lock (find_locked_run lock.run_id t.runs))

AllKnown-Grows :
    (old new : List PipelineRun) (ops : List AdminOperation)
    → Grows old new
    → AllKnown old ops
    → AllKnown new ops
AllKnown-Grows old new [] grows h = tt
AllKnown-Grows old new (o ∷ rest) grows h =
    (go o.pipeline_run_id h.0, AllKnown-Grows old new rest grows h.1)
  where
    go : (run : Option ℕ) → Known old run → Known new run
    go none k = k
    go (some i) k = grows i k

record_operation-AllKnown :
    (input : RecordAdminOperationInput) (clock : ℕ) (a : Administration)
    → AllKnown a.tables.runs a.operations
    → AllKnown
        (record_operation input clock a).1.tables.runs
        (record_operation input clock a).1.operations
unfolding record_operation insert_operation
record_operation-AllKnown input clock a h = elim (Bool-cases (is_blank input.actor_id)) [
  | inl blank ↦ rw (blank, is_some) h
  | inr filled ↦ rw filled (go input.target)
]
  where
    found :
        (target : String) (i : ℕ) (o : Option PipelineRun)
        → find_run i a.tables.runs ≡ o
        → AllKnown
            (append_found input target i clock a o).1.tables.runs
            (append_found input target i clock a o).1.operations
    found target i none e = h
    found target i (some r) e = (rw e refl, h)

    by_run :
        (target : String) (run : RunReference)
        → AllKnown
            (insert_operation input target run clock a).1.tables.runs
            (insert_operation input target run clock a).1.operations
    by_run target no_run = (tt, h)
    by_run target blank_id = h
    by_run target (run_ref i) = found target i (find_run i a.tables.runs) refl

    go :
        (target : Option String)
        → AllKnown
            (with_target input target clock a).1.tables.runs
            (with_target input target clock a).1.operations
    go none = h
    go (some target) = by_run target input.pipeline_run_id

administer-AllKnown :
    (c : AdministrationCall) (a : Administration)
    → AllKnown a.tables.runs a.operations
    → AllKnown (administer c a).tables.runs (administer c a).operations
unfolding administer
administer-AllKnown (pipeline c) a h =
    AllKnown-Grows a.tables.runs (step c a.tables).runs a.operations (step-Grows c a.tables) h
administer-AllKnown (recording input clock) a h = record_operation-AllKnown input clock a h

-- After any mixture of calls on the pipeline's lock and recordings of administrative operations,
-- every logged operation that names a run names one whose row is there.
pub administers-AllKnown :
    (cs : List AdministrationCall) (a : Administration)
    → AllKnown a.tables.runs a.operations
    → AllKnown (administers cs a).tables.runs (administers cs a).operations
unfolding administers
administers-AllKnown [] a h = h
administers-AllKnown (c ∷ rest) a h =
    administers-AllKnown rest (administer c a) (administer-AllKnown c a h)
