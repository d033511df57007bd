-- ===== src/Mm.antt =====
-- Memory management: kernel/mm.
pub mod PhysMem
pub mod ObjectCache
pub mod Vmem
