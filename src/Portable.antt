-- ===== src/Portable.antt =====
-- The branches of src/ that are compiled where the system is not Linux (`cfg(not(target_os =
-- "linux"))`), not unix (`cfg(not(unix))`, in `FileIdentity`), or not an x86 machine (`CpuFeatures`).
-- A call that these branches do not make is missing here; what they share with Linux is used from there.
pub mod FileIdentity
pub mod Block
pub mod Numa
pub mod Hugepages
pub mod Probes
pub mod CpuFeatures
pub mod Corpus
pub mod Prefetch
pub mod Stores
