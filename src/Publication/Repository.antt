-- ===== src/Publication/Repository.antt =====
-- publication-repository.ts: the checks that every operation shares, and the rows it loads. The
-- operations are in the modules below.
pub mod Reserve
pub mod Record
pub mod Lease
use Prim.Native.String.{count}
use radar_ia.Prelude.{
  ℕ, ◌+◌, String, Bool, true, not, ◌&&◌, Option, none, some, leb, ◌==◌, str_eq, is_blank,
  if◌then◌else◌,
}
use radar_ia.Publication.Types.{
  NewsFolderStatus, PublicationStatus, FolderPublication, PublicationAttempt, IdempotencyKey,
  publish_key, create_thread_key, enrich_key, unarchive_key, is_allowed, PersistenceErrorCode,
  folder_absent, inconsistent_state, invalid_idempotency_key, forbidden_status_transition,
}
use radar_ia.Publication.Exec.{persistence, M, pure, throw, gets, require, ◌>>=◌, ◌>>◌}
use radar_ia.Publication.World.{
  NewsFolder, World, same_key, is_active, find_publication, put_publication, latest, find_attempt,
  find_folder,
}

-- a `PublicationPersistenceError` unless `b`
abbrev pub ensure : Bool → PersistenceErrorCode → M World Unit
ensure b code = require b (persistence code)

unfoldable pub assert_non_empty : String → M World Unit
assert_non_empty value = ensure (not (is_blank value)) inconsistent_state

-- the length of the key's text, separators included
unfoldable pub key_length : IdempotencyKey → ℕ
key_length (publish_key f) = 8 + count f
key_length (create_thread_key f m) = 15 + count f + count m
key_length (enrich_key f x a) = 9 + count f + count x + count a
key_length (unarchive_key f t) = 11 + count f + count t

unfoldable pub assert_idempotency_key : IdempotencyKey → M World Unit
assert_idempotency_key key = ensure (leb (key_length key) 512) invalid_idempotency_key

unfoldable pub assert_positive_attempt_number : ℕ → M World Unit
assert_positive_attempt_number n = ensure (leb 1 n) inconsistent_state

unfoldable pub assert_transition : PublicationStatus → PublicationStatus → M World Unit
assert_transition from to = ensure (is_allowed from to) forbidden_status_transition

abbrev pub refuse_closed : NewsFolderStatus → NewsFolder → M World NewsFolder
refuse_closed NewsFolderStatus.closed f = throw (persistence PersistenceErrorCode.folder_closed)
refuse_closed _ f = pure f

abbrev pub refuse_absent : Option NewsFolder → M World NewsFolder
refuse_absent none = throw (persistence folder_absent)
refuse_absent (some f) = refuse_closed f.status f

unfoldable pub require_open_folder : String → M World NewsFolder
require_open_folder folder_id w = refuse_absent (find_folder folder_id w.folders) w

unfoldable pub load_publication_by_folder : String → M World (Option FolderPublication)
load_publication_by_folder folder_id w = pure (find_publication folder_id w.publications) w

-- `create` or `update`, with the row that it returns
unfoldable pub save_publication : FolderPublication → M World FolderPublication
save_publication p w = pure p (record w { publications = put_publication p w.publications })

-- the row, or the error where the code throws on null
abbrev pub or_throw : {A : Type 0} → PersistenceErrorCode → Option A → M World A
or_throw code none = throw (persistence code)
or_throw code (some a) = pure a

abbrev pub in_folder : String → Option PublicationAttempt → M World PublicationAttempt
in_folder folder_id none = throw (persistence inconsistent_state)
in_folder folder_id (some a) =
    if str_eq a.folder_id folder_id then pure a else throw (persistence inconsistent_state)

-- the newest reserved or succeeded attempt of a folder under a key
abbrev pub is_active_under : String → IdempotencyKey → PublicationAttempt → Bool
is_active_under folder_id key a =
    str_eq a.folder_id folder_id && same_key a.idempotency_key key && is_active a.status

-- how an input names an attempt: by id, else by key
unfoldable pub resolve_attempt :
    String → Option ℕ → Option IdempotencyKey → M World PublicationAttempt
resolve_attempt folder_id (some i) key = do
  attempts ← gets (λ w. w.attempts)
  in_folder folder_id (find_attempt i attempts)
resolve_attempt folder_id none (some key) = do
  assert_idempotency_key key
  attempts ← gets (λ w. w.attempts)
  or_throw inconsistent_state (latest (is_active_under folder_id key) attempts)
resolve_attempt folder_id none none = throw (persistence invalid_idempotency_key)
