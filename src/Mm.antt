-- ===== src/Mm.antt =====
-- src/mm: memory management.
pub mod Machine
pub mod PageAllocator
pub mod Zones
