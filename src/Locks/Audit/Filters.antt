-- ===== src/Locks/Audit/Filters.antt =====
-- The filters of listOperations, and what the tests of the code mean.
use radar_ia.Prelude.{
  ◌≡◌, refl, sym, ap, ◌↔◌, if◌then◌else◌, ℕ, String, true, not, Option, none, some, ◌==◌, arith,
  eq_iff,
}
use radar_ia.Prelude.Arranged.{IsWanted}
use radar_ia.Locks.Audit.{
  AdminOperation, AdminOperationKind, AdminOperationOutcome, run_cycle, collect_source,
  force_reanalysis, resume_publication, force_retry_publication, reconcile, force_republish,
  set_folder_status, reconcile_ids, clear_source_backoff, accepted, rejected, succeeded, op_failed,
  skipped,
}
use radar_ia.Locks.Audit.Lists.{
  kind_code, outcome_code, fits_text, fits_kind, fits_outcome, fits_operation,
}

-- an operation that the filters ask for, each of which may be absent
abbrev pub Matches :
    Option String
    → Option AdminOperationKind
    → Option AdminOperationOutcome
    → AdminOperation
    → Type 0
Matches actor kind outcome o =
    IsWanted actor o.actor_id × IsWanted kind o.kind × IsWanted outcome o.outcome

kind_of : ℕ → AdminOperationKind
kind_of n =
    if n == 0
    then run_cycle
    else if n == 1
    then collect_source
    else if n == 2
    then force_reanalysis
    else if n == 3
    then resume_publication
    else if n == 4
    then force_retry_publication
    else if n == 5
    then reconcile
    else if n == 6
    then force_republish
    else if n == 7
    then set_folder_status
    else if n == 8
    then reconcile_ids
    else clear_source_backoff

kind_of-kind_code : (k : AdminOperationKind) → kind_of (kind_code k) ≡ k
unfolding kind_of
kind_of-kind_code run_cycle = refl
kind_of-kind_code collect_source = refl
kind_of-kind_code force_reanalysis = refl
kind_of-kind_code resume_publication = refl
kind_of-kind_code force_retry_publication = refl
kind_of-kind_code reconcile = refl
kind_of-kind_code force_republish = refl
kind_of-kind_code set_folder_status = refl
kind_of-kind_code reconcile_ids = refl
kind_of-kind_code clear_source_backoff = refl

outcome_of : ℕ → AdminOperationOutcome
outcome_of n =
    if n == 0
    then accepted
    else if n == 1
    then rejected
    else if n == 2
    then succeeded
    else if n == 3
    then op_failed
    else skipped

outcome_of-outcome_code : (o : AdminOperationOutcome) → outcome_of (outcome_code o) ≡ o
unfolding outcome_of
outcome_of-outcome_code accepted = refl
outcome_of-outcome_code rejected = refl
outcome_of-outcome_code succeeded = refl
outcome_of-outcome_code op_failed = refl
outcome_of-outcome_code skipped = refl

-- the code's tests of a column, and what they mean
fits_text-IsWanted : (w : Option String) (s : String) → (fits_text w s ≡ true) ↔ IsWanted w s
fits_text-IsWanted none s = (λ h. tt, λ h. refl)
fits_text-IsWanted (some a) s = (λ h. sym ((eq_iff a s).0 h), λ h. (eq_iff a s).1 (sym h))

fits_kind-IsWanted :
    (w : Option AdminOperationKind) (k : AdminOperationKind) → (fits_kind w k ≡ true) ↔ IsWanted w k
fits_kind-IsWanted none k = (λ h. tt, λ h. refl)
fits_kind-IsWanted (some a) k = (
  λ h.
      let same : kind_code k ≡ kind_code a = ground arith in
      cc (ap kind_of same, kind_of-kind_code k, kind_of-kind_code a),
  λ h. rw h (ground arith),
)

fits_outcome-IsWanted :
    (w : Option AdminOperationOutcome) (o : AdminOperationOutcome)
    → (fits_outcome w o ≡ true) ↔ IsWanted w o
fits_outcome-IsWanted none o = (λ h. tt, λ h. refl)
fits_outcome-IsWanted (some a) o = (
  λ h.
      let same : outcome_code o ≡ outcome_code a = ground arith in
      cc (ap outcome_of same, outcome_of-outcome_code o, outcome_of-outcome_code a),
  λ h. rw h (ground arith),
)

module _ (actor : Option String) (kind : Option AdminOperationKind)
    (outcome : Option AdminOperationOutcome) (o : AdminOperation) where
  pub fits-Matches : fits_operation actor kind outcome o ≡ true → Matches actor kind outcome o
  fits-Matches h = (
    (fits_text-IsWanted actor o.actor_id).0 (ground arith),
    (fits_kind-IsWanted kind o.kind).0 (ground arith),
    (fits_outcome-IsWanted outcome o.outcome).0 (ground arith),
  )

  pub unfit-Matches :
      not (fits_operation actor kind outcome o) ≡ true → ¬ (Matches actor kind outcome o)
  unfit-Matches h m =
      let a = (fits_text-IsWanted actor o.actor_id).1 m.0 in
      let k = (fits_kind-IsWanted kind o.kind).1 m.1 in
      let r = (fits_outcome-IsWanted outcome o.outcome).1 m.2 in ground arith
