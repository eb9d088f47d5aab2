-- ===== src/Http.antt =====
-- src/http.c, src/http.h, src/http-body.c: what the server knows of HTTP messages.
pub mod Method
pub mod Header
pub mod Body
pub mod Response
pub mod Chunk
pub mod Builtin
pub mod Request
pub mod ResponseList
pub mod Examples
