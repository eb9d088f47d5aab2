-- ===== src/Util.antt =====
-- The string helpers of src/util.c.
pub mod Replace
pub mod Trim
pub mod Lines
pub mod Examples
