-- ===== src/Stream.antt =====
-- main.c, "stream": the response body as it arrives. `State` has the record of a response, `Event`
-- the handler of one server-sent event, `Chunk` the callback that cuts the body into lines, and
-- `Content` the message that the blocks make; the other children are the theorems.
pub mod State
pub mod Event
pub mod Chunk
pub mod Content
pub mod Bounds
pub mod Frame
pub mod Chunking
pub mod Lines
