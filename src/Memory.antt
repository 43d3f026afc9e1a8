-- ===== src/Memory.antt =====
-- memory/
pub mod Heap4
