-- ===== src/Safety.antt =====
-- Whole cycles, and many turns of the loop (src/agsync/sync/engine.py).
pub mod DryRun
pub mod Superseded
pub mod Roster
pub mod Outage
