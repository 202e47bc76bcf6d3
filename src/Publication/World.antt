-- ===== src/Publication/World.antt =====
-- The tables that the publication reads and writes, the clock, and the Discord calls made so far.
-- The primary keys of attempts, which the database draws (cuid), are numbers from a counter.
use radar_ia.Prelude.{
  ℕ, String, Bool, true, false, ◌&&◌, Option, none, some, List, [], ◌∷◌, ltb, ◌==◌, str_eq,
  if◌then◌else◌,
}
use radar_ia.Publication.Types.{
  NewsFolderStatus, FolderPublication, PublicationAttempt, IdempotencyKey, publish_key,
  create_thread_key, enrich_key, unarchive_key, AttemptStatus, reserved, succeeded, OperationKind,
  publish,
}

-- the columns of NewsFolder that are read
pub record NewsFolder : Type 0 where
  pub id : String
  pub status : NewsFolderStatus
  pub title : String
  pub last_activity_at : ℕ

-- A call of the Discord port. A main message carries the folder that it announces.
pub data DiscordCall : Type 0 where
  send_main_message : String → String → String → DiscordCall
  start_thread : String → String → String → DiscordCall
  unarchive_thread_if_needed : String → DiscordCall
  send_thread_message : String → String → DiscordCall

-- A call, whether its answer was good, and whether Discord carried it out although the answer was an
-- error: the bot's adapter turns timeouts and connection resets into errors.
pub record CallRecord : Type 0 where
  pub call : DiscordCall
  pub done : Bool
  pub lost : Bool

pub record World : Type 0 where
  pub folders : List NewsFolder
  pub publications : List FolderPublication
  pub attempts : List PublicationAttempt
  pub next_id : ℕ
  pub clock : ℕ
  -- latest first
  pub calls : List CallRecord

abbrev pub same_key : IdempotencyKey → IdempotencyKey → Bool
same_key (publish_key f) (publish_key g) = str_eq f g
same_key (create_thread_key f m) (create_thread_key g n) = str_eq f g && str_eq m n
same_key (enrich_key f x a) (enrich_key g y b) = str_eq f g && str_eq x y && str_eq a b
same_key (unarchive_key f t) (unarchive_key g u) = str_eq f g && str_eq t u
same_key _ _ = false

abbrev pub is_active : AttemptStatus → Bool
is_active reserved = true
is_active succeeded = true
is_active _ = false

abbrev pub is_reserved : AttemptStatus → Bool
is_reserved reserved = true
is_reserved _ = false

abbrev pub is_succeeded : AttemptStatus → Bool
is_succeeded succeeded = true
is_succeeded _ = false

abbrev pub is_publish : OperationKind → Bool
is_publish publish = true
is_publish _ = false

-- `findUnique({ where: { folderId } })`; the column is unique
unfoldable pub find_publication : String → List FolderPublication → Option FolderPublication
find_publication f [] = none
find_publication f (p ∷ ps) =
    let rest = find_publication f ps in if str_eq p.folder_id f then some p else rest

-- the row of that folder replaced, or a new row
unfoldable pub put_publication : FolderPublication → List FolderPublication → List FolderPublication
put_publication q [] = q ∷ []
put_publication q (p ∷ ps) =
    let rest = put_publication q ps in if str_eq p.folder_id q.folder_id then q ∷ ps else p ∷ rest

-- `findFirst` with `orderBy: [{ attemptNumber: "desc" }]`: of equals the first stays
abbrev pub prefer : PublicationAttempt → Option PublicationAttempt → PublicationAttempt
prefer a none = a
prefer a (some b) = if ltb a.attempt_number b.attempt_number then b else a

unfoldable pub latest :
    (PublicationAttempt → Bool) → List PublicationAttempt → Option PublicationAttempt
latest p [] = none
latest p (a ∷ rest) = let found = latest p rest in if p a then some (prefer a found) else found

-- `findUnique({ where: { id } })`
unfoldable pub find_attempt : ℕ → List PublicationAttempt → Option PublicationAttempt
find_attempt i [] = none
find_attempt i (a ∷ rest) = let found = find_attempt i rest in if a.id == i then some a else found

-- `update({ where: { id } })`: the row that `findUnique` finds
unfoldable pub update_attempt :
    ℕ
    → (PublicationAttempt → PublicationAttempt)
    → List PublicationAttempt
    → List PublicationAttempt
update_attempt i f [] = []
update_attempt i f (a ∷ rest) =
    let others = update_attempt i f rest in if a.id == i then f a ∷ rest else a ∷ others

unfoldable pub find_folder : String → List NewsFolder → Option NewsFolder
find_folder f [] = none
find_folder f (x ∷ xs) = let rest = find_folder f xs in if str_eq x.id f then some x else rest
