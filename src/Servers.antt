-- ===== src/Servers.antt =====
-- apps/servers: SSH sessions, what is read over them, and the tasks.
pub mod Ssh
pub mod Tasks
pub mod Form
pub mod Views
pub mod Pages
