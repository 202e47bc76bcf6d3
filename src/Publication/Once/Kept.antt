-- ===== src/Publication/Once/Kept.antt =====
-- recordMainPublicationSuccess, reservePublish and the other records, from a world in the invariant.
use radar_ia.Prelude.{◌≡◌, refl, subst, ℕ, String, false, Option, is_blank}
use radar_ia.Publication.Types.{IdempotencyKey, ReserveOutcome, publish_key}
use radar_ia.Publication.Exec.{Result, ok, err}
use radar_ia.Publication.Hoare.{After}
use radar_ia.Publication.World.{World, same_key, is_publish}
use radar_ia.Publication.Repository.Record.{
  Recorded, record_main_publication_success, record_thread_created, record_enrichment_published,
}
use radar_ia.Publication.Once.Invariant.{Inv}
use radar_ia.Publication.Repository.Reserve.{
  ReserveOperationInput, reserve_publish, reserve_operation,
}
use radar_ia.Publication.Once.Reserve.{reserve_operation-Inv}
use radar_ia.Publication.Once.Lease.{KeyedRow}
use radar_ia.Publication.Once.ReservePublish.{attempt_in, Reserved}
use radar_ia.Publication.Once.PublishReserved.{publish_input, reserve_publish-Reserved}
use radar_ia.Publication.Once.Results.{record_thread_created-Inv, record_enrichment_published-Inv}
use radar_ia.Publication.Once.Posted.{Posted}
use radar_ia.Publication.Once.MainRecord.{
  main_input, Completed, record_main_publication_success-Completed,
}

After-both :
    {A : Type 0} (f : String) (r : Result A) (w : World) → After (λ _. Inv f) (Inv f) r w → Inv f w
After-both f (ok a) w h = h
After-both f (err e) w h = h

After-ok :
    {A : Type 0} (Q : A → World → Type 0) (r : Result A) (w : World)
    → After Q (λ _. ⊥) r w
    → (a : A) × (r ≡ ok a) × Q a w
After-ok Q (ok a) w h = (a, refl, h)
After-ok Q (err e) w h = absurd h

-- Once Discord has a folder's only main message, sent under its reserved publish attempt `i`, the
-- record of this message returns: the publication that it returns is the folder's row, partial, with
-- the message's id, its channel and its guild; the attempt `i`, in the answer and in the table, has
-- succeeded with the message's id; no publish attempt of the folder is open; one message is counted;
-- and the invariant of the folder holds. The texts that the record asserts must not be blank.
pub record_main_publication_success-completes :
    (f channel guild message : String) (analysis : Option String) (i : ℕ) (w : World)
    → is_blank f ≡ false
    → is_blank channel ≡ false
    → is_blank guild ≡ false
    → is_blank message ≡ false
    → Posted f i w
    → let result =
        record_main_publication_success (main_input f channel guild message analysis i) w in
      (r : Recorded) × (result.0 ≡ ok r) × Completed f channel guild message i r result.1
record_main_publication_success-completes f channel guild message analysis i w bf bc bg bm posted =
    After-ok (Completed f channel guild message i) _ _ (
      (record_main_publication_success-Completed f channel guild message analysis i bf bc bg bm).at
        w posted)

ok_injective : {A : Type 0} {a b : A} → ok a ≡ ok b → a ≡ b
ok_injective {A} {a} {b} e = cc e

After-found :
    {A : Type 0} (Q : A → World → Type 0) (E : World → Type 0) (r : Result A) (w : World) (a : A)
    → r ≡ ok a
    → After Q E r w
    → Q a w
After-found Q E (ok b) w a e h = subst (λ x. Q x w) (ok_injective e) h
After-found Q E (err x) w a e h = cc e

-- Where the invariant of the folder `f` holds and reservePublish returns for `f` under its publish
-- key, the invariant holds afterwards and the attempt of the outcome, new or found, stands in the
-- table under this key.
pub reserve_publish-keeps :
    (f guild : String) (analysis : Option String) (w : World) (out : ReserveOutcome)
    → Inv f w
    → (reserve_publish (publish_input f guild analysis) w).0 ≡ ok out
    → let after = (reserve_publish (publish_input f guild analysis) w).1 in
      Inv f after × KeyedRow f (attempt_in out).id after
reserve_publish-keeps f guild analysis w out v e =
    let h =
      After-found (Reserved f f) (Inv f) _ _ out e
        ((reserve_publish-Reserved f f guild analysis).at w v) in
    (h.0, h.1 refl)

-- recordThreadCreated keeps the invariant of every folder `f`, whatever folder `g` it is called for
-- and whether it returns or throws.
pub record_thread_created-keeps :
    (f g thread : String) (i : Option ℕ) (key : Option IdempotencyKey) (w : World)
    → Inv f w
    → Inv f (record_thread_created g thread i key w).1
record_thread_created-keeps f g thread i key w v =
    After-both f _ _ ((record_thread_created-Inv f g thread i key).at w v)

-- recordEnrichmentPublished keeps the invariant of every folder `f`, whatever folder `g` it is
-- called for and whether it returns or throws.
pub record_enrichment_published-keeps :
    (f g message : String) (i : Option ℕ) (key : Option IdempotencyKey) (w : World)
    → Inv f w
    → Inv f (record_enrichment_published g message i key w).1
record_enrichment_published-keeps f g message i key w v =
    After-both f _ _ ((record_enrichment_published-Inv f g message i key).at w v)

-- reserveOperation, for an operation that is no publish and under a key that is not the publish key of
-- the folder `f`, keeps the invariant of `f`, whatever folder it is called for and whether it
-- reserves, finds an earlier attempt, or throws.
pub reserve_operation-keeps :
    (f : String) (input : ReserveOperationInput) (w : World)
    → same_key input.idempotency_key (publish_key f) ≡ false
    → is_publish input.kind ≡ false
    → Inv f w
    → Inv f (reserve_operation input w).1
reserve_operation-keeps f input w key kind v =
    After-both f _ _ ((reserve_operation-Inv f input key kind).at w v)
