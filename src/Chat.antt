-- ===== src/Chat.antt =====
-- main.c: a turn of the conversation: the request, the answer, the tools it calls, and the next round.
pub mod Answer
pub mod Messages
pub mod Turn
pub mod Answered
pub mod Uses
pub mod Results
pub mod Stored
pub mod Spoiled
