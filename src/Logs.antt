-- ===== src/Logs.antt =====
-- apps/logs: log formats and their patterns, the line parser, the incremental reader, and its task.
pub mod Format
pub mod Pattern
pub mod Parser
pub mod Chunk
pub mod Reader
pub mod Tasks
