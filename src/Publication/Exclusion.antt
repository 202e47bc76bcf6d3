-- ===== src/Publication/Exclusion.antt =====
-- claimExecution: who may run an attempt on Discord, and until when.
use radar_ia.Prelude.{
  ◌≡◌, refl, ℕ, ◌+◌, ◌<◌, ◌≤◌, String, true, false, none, some, leb, arith, str_eq, is_blank, subst,
  sym,
}
use radar_ia.Publication.Types.{PublicationAttempt}
use radar_ia.Publication.Exec.{ok}
use radar_ia.Publication.World.{World, find_attempt, update_attempt}
use radar_ia.Publication.Tables.{find_attempt-id, find_attempt-update}
use radar_ia.Publication.Repository.{assert_non_empty}
use radar_ia.Publication.Repository.Lease.{is_claimable, leased, claim_found, claim_execution}

-- past its checks, a claim is the conditional update
claim-found :
    (i lease_ms now : ℕ) (holder : String) (w : World)
    → is_blank holder ≡ false
    → 1 ≤ lease_ms
    → claim_execution i holder lease_ms now w
      ≡ claim_found i holder lease_ms now (find_attempt i w.attempts) w
unfolding claim_execution assert_non_empty
claim-found i lease_ms now holder w b l =
    let c : leb 1 lease_ms ≡ true = ground arith in rw b (rw c refl)

claimed-row :
    (i lease_ms now : ℕ) (holder : String) (w : World) (a : PublicationAttempt)
    → find_attempt i w.attempts ≡ some a
    → is_claimable holder now a ≡ true
    → claim_found i holder lease_ms now (some a) w ≡ (
      ok (some (leased holder (now + lease_ms) a)),
      record w { attempts = update_attempt i (leased holder (now + lease_ms)) w.attempts },
    )
unfolding claim_found
claimed-row i lease_ms now holder w a e c = rw c refl

refused-row :
    (i lease_ms now : ℕ) (holder : String) (w : World) (a : PublicationAttempt)
    → is_claimable holder now a ≡ false
    → claim_found i holder lease_ms now (some a) w ≡ (ok none, w)
unfolding claim_found
refused-row i lease_ms now holder w a c = rw c refl

still_leased :
    (holder other : String) (later until : ℕ) (a : PublicationAttempt)
    → str_eq holder other ≡ false
    → later < until
    → is_claimable other later (leased holder until a) ≡ false
unfolding is_claimable
still_leased holder other later until a differ before = ground arith

run_out :
    (holder other : String) (now later until : ℕ) (a : PublicationAttempt)
    → is_claimable holder now a ≡ true
    → until ≤ later
    → is_claimable other later (leased holder until a) ≡ true
unfolding is_claimable
run_out holder other now later until a c after = ground arith

-- While a holder's lease runs, the claim of any other holder returns null and writes nothing.
pub claim_execution-excludes :
    (i lease_ms now other_ms later : ℕ) (holder other : String) (w : World) (a : PublicationAttempt)
    → is_blank holder ≡ false
    → 1 ≤ lease_ms
    → find_attempt i w.attempts ≡ some a
    → is_claimable holder now a ≡ true
    → is_blank other ≡ false
    → 1 ≤ other_ms
    → str_eq holder other ≡ false
    → later < now + lease_ms
    → let claimed = (claim_execution i holder lease_ms now w).1 in
      claim_execution i other other_ms later claimed ≡ (ok none, claimed)
claim_execution-excludes i lease_ms now other_ms later holder other w a bh lh e c bo lo differ
      before =
    let v : World = record w {
      attempts = update_attempt i (leased holder (now + lease_ms)) w.attempts;
    } in
    let first : (claim_execution i holder lease_ms now w).1 ≡ v =
      rw (claim-found i lease_ms now holder w bh lh)
        (rw e (rw (claimed-row i lease_ms now holder w a e c) refl)) in
    let row =
      find_attempt-update i (leased holder (now + lease_ms)) w.attempts a e
        (find_attempt-id i w.attempts a e) in
    let second : claim_execution i other other_ms later v ≡ (ok none, v) =
      rw (claim-found i other_ms later other v bo lo) (
        rw row (
          refused-row i other_ms later other v _
            (still_leased holder other later (now + lease_ms) a differ before))) in
    subst (λ x. claim_execution i other other_ms later x ≡ (ok none, x)) (sym first) second

-- Once the lease has run out, any other holder can take the attempt over, if it is still reserved:
-- the claim returns the row leased to the new holder and the table has this row.
pub claim_execution-takes_over :
    (i lease_ms now other_ms later : ℕ) (holder other : String) (w : World) (a : PublicationAttempt)
    → is_blank holder ≡ false
    → 1 ≤ lease_ms
    → find_attempt i w.attempts ≡ some a
    → is_claimable holder now a ≡ true
    → is_blank other ≡ false
    → 1 ≤ other_ms
    → now + lease_ms ≤ later
    → let claimed = (claim_execution i holder lease_ms now w).1 in
      let taken = claim_execution i other other_ms later claimed in
      (taken.0 ≡ ok (some (leased other (later + other_ms) a)))
      × (find_attempt i taken.1.attempts ≡ some (leased other (later + other_ms) a))
claim_execution-takes_over i lease_ms now other_ms later holder other w a bh lh e c bo lo after =
    let v : World = record w {
      attempts = update_attempt i (leased holder (now + lease_ms)) w.attempts;
    } in
    let first : (claim_execution i holder lease_ms now w).1 ≡ v =
      rw (claim-found i lease_ms now holder w bh lh)
        (rw e (rw (claimed-row i lease_ms now holder w a e c) refl)) in
    let b = leased holder (now + lease_ms) a in
    let row =
      find_attempt-update i (leased holder (now + lease_ms)) w.attempts a e
        (find_attempt-id i w.attempts a e) in
    let again =
      find_attempt-update i (leased other (later + other_ms)) v.attempts b row
        (find_attempt-id i w.attempts a e) in
    let second : claim_execution i other other_ms later v ≡ (
      ok (some (leased other (later + other_ms) b)),
      record v { attempts = update_attempt i (leased other (later + other_ms)) v.attempts },
    ) =
      rw (claim-found i other_ms later other v bo lo) (
        rw row (
          claimed-row i other_ms later other v b row
            (run_out holder other now later (now + lease_ms) a c after))) in
    rw first (rw second (refl, again))
