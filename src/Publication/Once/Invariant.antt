-- ===== src/Publication/Once/Invariant.antt =====
-- What holds of a folder between two calls of the orchestrator: how its publication, its attempts
-- and the messages sent fit together.
use radar_ia.Prelude.{
  ℕ, ◌+◌, ◌<◌, ◌≤◌, ◌≡◌, String, Bool, true, false, not, ◌&&◌, ◌||◌, Option, none, some, List, [],
  ◌∷◌, str_eq, is_some, if◌then◌else◌,
}
use radar_ia.Publication.Types.{
  pending, FolderPublication, PublicationAttempt, publish_key, is_main_status, same_status,
}
use radar_ia.Publication.World.{
  World, CallRecord, DiscordCall, send_main_message, is_reserved, is_succeeded, is_publish,
  same_key, find_publication,
}
use radar_ia.Publication.Tables.{count_if, bit, Below}

abbrev pub has_message : Option FolderPublication → Bool
has_message none = false
has_message (some p) = is_some p.main_message_id

abbrev pub has_main_status : Option FolderPublication → Bool
has_main_status none = false
has_main_status (some p) = is_main_status p.status

abbrev pub is_pending : Option FolderPublication → Bool
is_pending none = false
is_pending (some p) = same_status p.status pending

-- a main message of the folder that Discord has posted, if `done` says so of the call
abbrev pub is_sent : String → DiscordCall → Bool → Bool
is_sent f (send_main_message g channel payload) done = str_eq g f && done
is_sent f _ done = false

-- how many main messages of the folder Discord has posted with a good answer
abbrev pub sent : String → List CallRecord → ℕ
sent f [] = 0
sent f (r ∷ rest) = bit (is_sent f r.call r.done) + sent f rest

-- how many it has posted whose answer was an error
abbrev pub unconfirmed : String → List CallRecord → ℕ
unconfirmed f [] = 0
unconfirmed f (r ∷ rest) = bit (is_sent f r.call (not r.done && r.lost)) + unconfirmed f rest

-- how many main messages of the folder stand on Discord
abbrev pub posted : String → List CallRecord → ℕ
posted f [] = 0
posted f (r ∷ rest) = bit (is_sent f r.call (r.done || r.lost)) + posted f rest

abbrev pub is_open_publish : String → PublicationAttempt → Bool
is_open_publish f a = same_key a.idempotency_key (publish_key f) && is_reserved a.status

abbrev pub is_done_publish : String → PublicationAttempt → Bool
is_done_publish f a = same_key a.idempotency_key (publish_key f) && is_succeeded a.status

-- a publish attempt of the folder has the folder's publish key, and only such an attempt has it
abbrev pub is_well_keyed : String → PublicationAttempt → Bool
is_well_keyed f a =
    if same_key a.idempotency_key (publish_key f)
    then str_eq a.folder_id f && is_publish a.kind
    else not (str_eq a.folder_id f && is_publish a.kind)

abbrev pub is_ill_keyed : String → PublicationAttempt → Bool
is_ill_keyed f a = not (is_well_keyed f a)

-- the invariant, over the parts of the world that it speaks of, and a count of main messages
pub record Fits (f : String) (p : Option FolderPublication) (l : List PublicationAttempt) (n k : ℕ)
    : Type 0 where
  pub settled : has_message p ≡ true → has_main_status p ≡ true
  pub once : k ≤ 1
  pub unsent : has_message p ≡ false → k ≡ 0
  pub waiting : 0 < count_if (is_open_publish f) l → is_pending p ≡ true
  pub single : count_if (is_open_publish f) l ≤ 1
  pub finished : 0 < count_if (is_done_publish f) l → has_message p ≡ true
  pub keyed : count_if (is_ill_keyed f) l ≡ 0
  pub ids : Below n l

abbrev pub Inv : String → World → Type 0
Inv f w = Fits f (find_publication f w.publications) w.attempts w.next_id (sent f w.calls)

-- the same with every main message that stands on Discord counted
abbrev pub FitsDiscord : String → World → Type 0
FitsDiscord f w = Fits f (find_publication f w.publications) w.attempts w.next_id (posted f w.calls)
