-- ===== src/Tools.antt =====
-- main.c: the tools that a turn can call.
pub mod Write
pub mod Edit
pub mod Read
pub mod Shell
pub mod Schemas
pub mod Dispatch
