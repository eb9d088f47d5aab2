-- ===== src/Server.antt =====
-- What the server makes of a request: src/http-server.c.
pub mod Files
pub mod Confinement
pub mod Refusals
pub mod Filesize
pub mod Listing
pub mod Process
pub mod Examples
