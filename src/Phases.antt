-- ===== src/Phases.antt =====
-- The six phases of a sync cycle (src/agsync/sync/phases).
pub mod Params
pub mod Provision
pub mod LocalToAg
pub mod Deletions
pub mod AgToLocal
pub mod Retries
pub mod FieldChanges
mod Dates
