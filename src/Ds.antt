-- ===== src/Ds.antt =====
-- Data structures: kernel/ds.
pub mod Aqueue
pub mod Iqueue
pub mod Rwlock
pub mod Htable
pub mod Links
pub mod Family
