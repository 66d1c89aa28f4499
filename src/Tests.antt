-- ===== src/Tests.antt =====
-- Runs of the theorems at concrete inputs.
pub mod Ips
pub mod Iran
pub mod Shared
pub mod Logs
pub mod Polls
pub mod Whois
pub mod Pages
pub mod Dashboard
