-- ===== src/Status.antt =====
-- The status reports of the hub (src/agsync/status).
pub mod Reporter
pub mod Waits
pub mod Payload
