-- ===== src/Loop.antt =====
-- The loops of src/server-loop.c, src/server-loop-read.c, src/server-loop-worker.c and
-- src/server-loop-write.c.
pub mod Worker
pub mod Read
pub mod Write
pub mod Main
pub mod Examples
