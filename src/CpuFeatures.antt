-- ===== src/CpuFeatures.antt =====
-- src/cpu_features.rs on Linux and x86_64, in two parts: the sizes that sysfs writes, and the
-- detection that is kept in a cell; their theorems are in the others.
pub mod CacheValue
pub mod Detect
pub mod Detected
pub mod Bounds
pub mod Sizes
pub mod Printed
