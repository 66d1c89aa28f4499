-- ===== src/Ips.antt =====
-- apps/ips: identity of addresses, sightings, the task for new addresses, and retention.
pub mod Identity
pub mod Sightings
pub mod Tasks
pub mod Retention
pub mod Pages
