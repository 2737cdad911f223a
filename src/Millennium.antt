-- ===== src/Millennium.antt =====
-- The Millennium Ultra adapter (src/agsync/lib/pacs/millennium_ultra).
pub mod Cardholders
pub mod Ledger
pub mod Records
pub mod WriteBack
pub mod Placed
pub mod States
pub mod Closed
pub mod Cycle
pub mod Deletes
pub mod ImportFile
pub mod Files
pub mod Imports
pub mod Settled
