-- ===== src/Whois.antt =====
-- apps/whois: the parser of responses and the lookup task.
pub mod Parser
pub mod Inetnum
pub mod Lookup
pub mod Pages
