-- ===== src/Http.antt =====
-- main.c: the HTTP client.
pub mod Url
pub mod Socket
pub mod Tls
pub mod Headers
pub mod Body
pub mod Post
