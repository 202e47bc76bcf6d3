-- ===== src/Locks/Refinement/OfPipeline/Answers.antt =====
-- Sequences of calls on the pipeline's lock against the lease.
use radar_ia.Prelude.{
  ◌≡◌, refl, ap, ◌∙◌, ℕ, String, Bool, true, Option, none, some, List, arith, is_some, map, All,
  is_blank, Bool-cases, inl, inr,
}
use radar_ia.Locks.Pipeline.{
  PipelineLock, Tables, acquire_lock, try_acquire, heartbeat_run, heartbeat_lock, heartbeat,
  release_run, release_lock, release, PipelineCall, step, acquire_call, heartbeat_call,
  release_call,
}
use radar_ia.Locks.Pipeline.Invariant.{LockFits, step-SingleFlight}
use radar_ia.Locks.Lease.{
  Lease, answer, answers, take_lease, renew_lease, end_lease, Implementation, runs, runs-answers,
  Foreign, refused, answers-refused,
}
use radar_ia.Locks.Refinement.OfPipeline.{has_acquired, has_done, view_row, asked, run, Reached}
use radar_ia.Locks.Refinement.OfPipeline.Rows.{
  acquire_lock-take, heartbeat_lock-renew, release_lock-give_back,
}

-- every operation leaves the row there
run-is_some :
    (c : PipelineCall) (t : Tables) → is_some t.lock ≡ true → is_some (run c t).1.lock ≡ true
unfolding try_acquire acquire_lock heartbeat heartbeat_lock heartbeat_run release release_lock
    release_run
run-is_some (acquire_call input clock) t h = elim (Bool-cases (is_blank input.holder_id)) [
  | inl blank ↦ rw blank h
  | inr filled ↦ rw filled (go t.lock h)
]
  where
    go :
        (o : Option PipelineLock)
        → is_some o ≡ true
        → is_some (acquire_lock input clock o t.runs).1.lock ≡ true
    go none p = p
    go (some lock) p = ground arith
run-is_some (heartbeat_call holder expires now) t h = elim (Bool-cases (is_blank holder)) [
  | inl blank ↦ rw blank h
  | inr filled ↦ rw filled (go t.lock h)
]
  where
    go :
        (o : Option PipelineLock)
        → is_some o ≡ true
        → is_some (heartbeat_lock holder expires now o t.runs).1.lock ≡ true
    go none p = p
    go (some lock) p = ground arith
run-is_some (release_call input) t h = elim (Bool-cases (is_blank input.holder_id)) [
  | inl blank ↦ rw blank h
  | inr filled ↦ rw filled (go t.lock h)
]
  where
    go :
        (o : Option PipelineLock)
        → is_some o ≡ true
        → is_some (release_lock input o t.runs).1.lock ≡ true
    go none p = p
    go (some lock) p = ground arith

pub run-Reached : (c : PipelineCall) (t : Tables) → Reached t → Reached (run c t).1
unfolding step
run-Reached (acquire_call input clock) t h = (
  step-SingleFlight (acquire_call input clock) t h.0,
  run-is_some (acquire_call input clock) t h.1,
)
run-Reached (heartbeat_call holder expires now) t h = (
  step-SingleFlight (heartbeat_call holder expires now) t h.0,
  run-is_some (heartbeat_call holder expires now) t h.1,
)
run-Reached (release_call input) t h =
    (step-SingleFlight (release_call input) t h.0, run-is_some (release_call input) t h.1)

pub run-answer :
    (c : PipelineCall) (t : Tables)
    → Reached t
    → ((run c t).0, view_row (run c t).1.lock) ≡ answer (asked c) (view_row t.lock)
unfolding try_acquire heartbeat release answer
run-answer (acquire_call input clock) t h = elim (Bool-cases (is_blank input.holder_id)) [
  | inl blank ↦ rw blank refl
  | inr filled ↦ rw filled (go t.lock h.0.1 h.1)
]
  where
    go :
        (o : Option PipelineLock)
        → LockFits o t.runs
        → is_some o ≡ true
        → (
          has_acquired (acquire_lock input clock o t.runs).0,
          view_row (acquire_lock input clock o t.runs).1.lock,
        )
          ≡ take_lease input.holder_id input.expires_at input.now (view_row o)
    go none fits p = ground arith
    go (some lock) fits p =
        acquire_lock-take input clock lock lock.run_id lock.holder_id t.runs refl refl fits
run-answer (heartbeat_call holder expires now) t h = elim (Bool-cases (is_blank holder)) [
  | inl blank ↦ rw blank refl
  | inr filled ↦ rw filled (go t.lock h.0.1 h.1)
]
  where
    go :
        (o : Option PipelineLock)
        → LockFits o t.runs
        → is_some o ≡ true
        → (
          has_done (heartbeat_lock holder expires now o t.runs).0,
          view_row (heartbeat_lock holder expires now o t.runs).1.lock,
        )
          ≡ renew_lease holder expires (view_row o)
    go none fits p = ground arith
    go (some lock) fits p =
        heartbeat_lock-renew holder expires now lock lock.run_id lock.holder_id t.runs refl refl
          h.0.0 fits
run-answer (release_call input) t h = elim (Bool-cases (is_blank input.holder_id)) [
  | inl blank ↦ rw blank refl
  | inr filled ↦ rw filled (go t.lock h.0.1 h.1)
]
  where
    go :
        (o : Option PipelineLock)
        → LockFits o t.runs
        → is_some o ≡ true
        → (has_done (release_lock input o t.runs).0, view_row (release_lock input o t.runs).1.lock)
          ≡ end_lease input.holder_id (view_row o)
    go none fits p = ground arith
    go (some lock) fits p =
        release_lock-give_back input lock lock.run_id lock.holder_id t.runs refl refl h.0.0 fits

abbrev pub pipeline_lock : Implementation Tables PipelineCall
pipeline_lock = record {
  Reached = Reached;
  view = λ t. view_row t.lock;
  asked = asked;
  run = run;
  run-Reached = run-Reached;
  run-answer = run-answer;
}

-- For every sequence of calls on tables whose lock row is there and fits the runs: the calls that
-- get, renew or give back the pipeline's lock are those that get, renew or give back the lease that
-- the row's holder and end make, and the row left behind stands for the lease left behind.
pub runs-pipeline_lock :
    (cs : List PipelineCall) (t : Tables)
    → Reached t
    → ((runs pipeline_lock cs t).0, view_row (runs pipeline_lock cs t).1.lock)
      ≡ answers (map asked cs) (view_row t.lock)
runs-pipeline_lock cs t h = runs-answers pipeline_lock cs t h

-- On tables whose lock row is there and fits the runs, while a holder's lease of the pipeline runs,
-- calls that do not name it, and calls to acquire by anyone, all fail, and the lock stays with the holder until the same end.
pub runs-refused :
    (cs : List PipelineCall) (t : Tables) (holder : String) (end : ℕ)
    → Reached t
    → view_row t.lock ≡ some (holder, some end)
    → All (Foreign holder end) (map asked cs)
    → ((runs pipeline_lock cs t).0 ≡ refused (map asked cs))
      × (view_row (runs pipeline_lock cs t).1.lock ≡ some (holder, some end))
runs-refused cs t holder end h held foreign = (ap (λ p. p.0) all, ap (λ p. p.1) all)
  where
    all :
        ◌≡◌ {A = List Bool × Lease}
          ((runs pipeline_lock cs t).0, view_row (runs pipeline_lock cs t).1.lock)
          (refused (map asked cs), some (holder, some end))
    all = runs-pipeline_lock cs t h ∙ rw held (answers-refused holder end (map asked cs) foreign)
