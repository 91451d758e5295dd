-- ===== src/Mmap.antt =====
-- src/mmap.rs on Linux: anonymous blocks (`MmapBlock`) and read-only maps of files, in two children;
-- what each path leaves mapped and open is in the others.
pub mod Block
pub mod File
pub mod Ownership
pub mod Identity
pub mod Blocks
pub mod Sized
pub mod Advice
pub mod Failures
