-- ===== src/Publication/Once.antt =====
-- A folder's publication, its publish attempts and the main messages sent.
pub mod Invariant
pub mod Moves
pub mod Repository
pub mod Record
pub mod Results
pub mod Lease
pub mod Posted
pub mod Main
pub mod MainRecord
pub mod Kept
pub mod Guarded
pub mod Release
pub mod Calls
pub mod Close
pub mod Failure
pub mod Reserve
pub mod ReservePublish
pub mod Pending
pub mod PublishReserved
pub mod Steps
pub mod ThreadFlow
pub mod EnrichFlow
pub mod Elsewhere
pub mod PublishFlow
pub mod Run
pub mod AtMostOnce
