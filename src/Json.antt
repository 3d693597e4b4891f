-- ===== src/Json.antt =====
-- tinyjson.h: the JSON library that the program carries. `Value` has the nodes and their
-- constructors, `Access` the lookups, `Number` what the C library's doubles are used for, `Parser`
-- and `Printer` the two directions, and the other children the theorems.
pub mod Value
pub mod Access
pub mod Number
pub mod Heap
pub mod Printer
pub mod Parser
pub mod RoundTrip
pub mod Total
