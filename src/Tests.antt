-- ===== src/Tests.antt =====
-- Concrete services and tables, and runs of the operations on them.
pub mod Data
mod Witnesses
mod Tables
mod Edges
mod Ultra
