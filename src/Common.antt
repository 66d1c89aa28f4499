-- ===== src/Common.antt =====
-- apps/common: fields and locks.
pub mod Fields
pub mod Locks
