-- ===== src/Inventory.antt =====
-- The stock of a company in the operational database: who may write it, the two writes, and the
-- check of a shelf against it.
pub mod Operational
pub mod Writes
pub mod Crosscheck
