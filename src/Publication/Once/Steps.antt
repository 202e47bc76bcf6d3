-- ===== src/Publication/Once/Steps.antt =====
-- The orchestrator's helpers and the invariant.
use radar_ia.Prelude.{ℕ, String, Bool, false, Option, none, some}
use radar_ia.Publication.Types.{PublicationErrorCode}
use radar_ia.Publication.Exec.{pure}
use radar_ia.Publication.Hoare.{Spec, Keeps, spec-weaken, spec-pure}
use radar_ia.Publication.World.{World}
use radar_ia.Publication.Repository.{load_publication_by_folder}
use radar_ia.Publication.Outcome.{Options, lease_claim, OrchestrationResult}
use radar_ia.Publication.Orchestrator.{
  Flow, or_return, failure_of, claim_discord_execution, record_port_failure,
}
use radar_ia.Publication.Once.Guarded.{guarded-Spec, guarded-Keeps}
use radar_ia.Publication.Once.Invariant.{Inv}
use radar_ia.Publication.Once.Lease.{
  KeyedRow, Claimed, claim_execution-Inv, claim_execution-Claimed,
}
use radar_ia.Publication.Once.Repository.{load-Spec}
use radar_ia.Publication.Once.Failure.{record_port_failure-Spec}

pub claim-Inv : (f : String) (o : Options) (i : ℕ) → Keeps (Inv f) (claim_discord_execution o i)
unfolding claim_discord_execution
claim-Inv f o i = guarded-Keeps (Inv f) o lease_claim _ (record {
  at = λ w v. (claim_execution-Inv f o.execution_holder_id i o.execution_lease_ms w.clock).at w v;
})

pub claim-Claimed :
    (f : String) (o : Options) (i : ℕ)
    → Spec (λ w. Inv f w × KeyedRow f i w) (claim_discord_execution o i) (Claimed f i) (Inv f)
unfolding claim_discord_execution
claim-Claimed f o i =
    guarded-Spec o lease_claim _
      (record {
        at = λ w v.
            (claim_execution-Claimed f o.execution_holder_id i o.execution_lease_ms w.clock).at w v;
      })
      (λ w v. v.0)

pub load-Keeps : (f g : String) → Keeps (Inv f) (load_publication_by_folder g)
load-Keeps f g = spec-weaken _ (load-Spec f g) (λ w h. h) (λ o w h. h.0) (λ w h. h)

-- a failure that does not mark the folder
pub unmarked_failure-Keeps :
    (f g : String) (o : Options) (i : ℕ) (code : PublicationErrorCode) (retryable : Bool)
    → Keeps (Inv f) (record_port_failure o (failure_of g i code retryable false))
unmarked_failure-Keeps f g o i code retryable =
    spec-weaken _ (record_port_failure-Spec f g i code retryable false o)
      (λ w v. (v, λ m. absurd (cc m))) (λ r w h. h) (λ w h. h)

pub or_return-Keeps :
    {A : Type 0} (P : World → Type 0) (a : Option A) (r : Flow) (k : A → Flow)
    → Keeps P r
    → ((x : A) → Keeps P (k x))
    → Keeps P (or_return a r k)
or_return-Keeps P none r k hr hk = hr
or_return-Keeps P (some x) r k hr hk = hk x

pub pure-Keeps : (P : World → Type 0) (result : OrchestrationResult) → Keeps P (pure result)
pure-Keeps P result = spec-pure result (λ w h. h)
