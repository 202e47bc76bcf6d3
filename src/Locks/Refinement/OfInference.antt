-- ===== src/Locks/Refinement/OfInference.antt =====
-- The inference lock's row as a lease.
use radar_ia.Prelude.{
  ◌≡◌, ℕ, String, Bool, true, false, Option, none, some, List, arith, is_some, map,
}
use radar_ia.Locks.Inference.{
  InferenceLock, AcquireOutcome, acquired, LockResult, ok, err, Table, acquire_row, try_acquire,
  release_row, release, LockCall, acquire_call, release_call,
}
use radar_ia.Locks.Lease.{
  Lease, LeaseCall, take, give_back, answer, answers, take_lease, end_lease, Implementation, runs,
  runs-answers,
}

abbrev pub has_acquired : LockResult AcquireOutcome → Bool
has_acquired (ok (acquired lock stolen)) = true
has_acquired _ = false

abbrev pub has_returned : LockResult InferenceLock → Bool
has_returned (ok lock) = true
has_returned (err e) = false

abbrev pub lease_of : Option String → Option ℕ → Lease
lease_of none end = none
lease_of (some holder) end = some (holder, end)

abbrev pub view : Table → Lease
view none = none
view (some lock) = lease_of lock.holder_id lock.expires_at

abbrev pub asked : LockCall → LeaseCall
asked (acquire_call holder expires now) = take holder expires now
asked (release_call holder now) = give_back holder

abbrev pub run : LockCall → Table → Bool × Table
run (acquire_call holder expires now) t =
    (has_acquired (try_acquire holder expires now t).0, (try_acquire holder expires now t).1)
run (release_call holder now) t = (has_returned (release holder now t).0, (release holder now t).1)

-- the migrations have made the row
abbrev pub Present : Table → Type 0
Present t = is_some t ≡ true

pub run-Present : (c : LockCall) (t : Table) → Present t → Present (run c t).1
unfolding try_acquire release acquire_row release_row
run-Present (acquire_call holder expires now) none h = ground arith
run-Present (acquire_call holder expires now) (some lock) h = ground arith
run-Present (release_call holder now) none h = ground arith
run-Present (release_call holder now) (some lock) h = ground arith

pub run-answer :
    (c : LockCall) (t : Table)
    → Present t
    → ((run c t).0, view (run c t).1) ≡ answer (asked c) (view t)
unfolding try_acquire release acquire_row release_row answer take_lease end_lease
run-answer (acquire_call holder expires now) none h = ground arith
run-answer (acquire_call holder expires now) (some lock) h = ground arith
run-answer (release_call holder now) none h = ground arith
run-answer (release_call holder now) (some lock) h = ground arith

-- the row's holder and end are all of the row that the answers depend on
abbrev pub inference_lock : Implementation Table LockCall
inference_lock = record {
  Reached = Present;
  view = view;
  asked = asked;
  run = run;
  run-Reached = run-Present;
  run-answer = run-answer;
}

-- For every sequence of calls on a table that has its row: the calls that get or give back the
-- inference lock are those that get or give back the lease that its holder and end make, and the
-- row left behind stands for the lease left behind.
pub runs-inference_lock :
    (cs : List LockCall) (t : Table)
    → Present t
    → ((runs inference_lock cs t).0, view (runs inference_lock cs t).1)
      ≡ answers (map asked cs) (view t)
runs-inference_lock cs t h = runs-answers inference_lock cs t h
