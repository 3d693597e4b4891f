-- ===== src/Json/RoundTrip.antt =====
-- tinyjson.h: what was printed parses back.
pub mod Strings
pub mod Numbers
pub mod Printable
pub mod Rounds
pub mod Values
pub mod Texts
