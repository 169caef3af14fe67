-- ===== src/Memory.antt =====
-- core-memory/src: memory for secrets, between guard pages.
pub mod Bytes
pub mod Alloc
