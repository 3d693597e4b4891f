-- ===== src/Session.antt =====
-- main.c: the session: the conversation as a file of JSON lines, its compaction and its repair.
pub mod Store
pub mod Compact
pub mod Prune
