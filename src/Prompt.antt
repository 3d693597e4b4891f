-- ===== src/Prompt.antt =====
-- main.c: the system prompt: skills, rules and instruction files.
pub mod Text
pub mod Skills
pub mod Rules
pub mod System
