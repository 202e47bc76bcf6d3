-- ===== src/Publication/Repository/Lease.antt =====
-- claimExecution and clearExecutionLease: at most one holder runs a reserved attempt on Discord.
use radar_ia.Prelude.{
  ℕ, ◌+◌, String, Bool, false, ◌&&◌, ◌||◌, Option, none, some, leb, is_none, same_text,
  if◌then◌else◌,
}
use radar_ia.Publication.Types.{PublicationAttempt, inconsistent_state}
use radar_ia.Publication.Exec.{M, pure, gets, ◌>>=◌, ◌>>◌}
use radar_ia.Publication.World.{World, is_reserved, find_attempt, update_attempt}
use radar_ia.Publication.Repository.{ensure, assert_non_empty}

-- a lease that is at its end or past it; SQL's `<=` does not hold of NULL
abbrev pub is_past : Option ℕ → ℕ → Bool
is_past none now = false
is_past (some t) now = leb t now

-- the `where` of the conditional update, apart from the id
unfoldable pub is_claimable : String → ℕ → PublicationAttempt → Bool
is_claimable holder now a =
    is_reserved a.status
    && (is_none a.execution_holder_id
        || is_past a.execution_lease_expires_at now
        || same_text a.execution_holder_id (some holder))

abbrev pub leased : String → ℕ → PublicationAttempt → PublicationAttempt
leased holder until a = record a {
  execution_holder_id = some holder;
  execution_lease_expires_at = some until;
}

abbrev pub unleased : PublicationAttempt → PublicationAttempt
unleased a = record a { execution_holder_id = none; execution_lease_expires_at = none }

-- one `updateMany`, so atomic; `none` when another holder has a valid lease
unfoldable pub claim_found :
    ℕ → String → ℕ → ℕ → Option PublicationAttempt → M World (Option PublicationAttempt)
claim_found i holder lease_ms now none w = pure none w
claim_found i holder lease_ms now (some a) w =
    if is_claimable holder now a
    then pure (some (leased holder (now + lease_ms) a))
        (record w { attempts = update_attempt i (leased holder (now + lease_ms)) w.attempts })
    else pure none w

unfoldable pub claim_execution : ℕ → String → ℕ → ℕ → M World (Option PublicationAttempt)
claim_execution i holder lease_ms now = do
  assert_non_empty holder
  ensure (leb 1 lease_ms) inconsistent_state
  attempts ← gets (λ w. w.attempts)
  claim_found i holder lease_ms now (find_attempt i attempts)

unfoldable pub clear_found :
    ℕ → String → Option PublicationAttempt → M World (Option PublicationAttempt)
clear_found i holder none w = pure none w
clear_found i holder (some a) w =
    if same_text a.execution_holder_id (some holder)
    then pure (some (unleased a)) (record w { attempts = update_attempt i unleased w.attempts })
    else pure (some a) w

unfoldable pub clear_execution_lease : ℕ → String → M World (Option PublicationAttempt)
clear_execution_lease i holder = do
  assert_non_empty holder
  attempts ← gets (λ w. w.attempts)
  clear_found i holder (find_attempt i attempts)
