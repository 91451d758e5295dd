-- ===== src/Numa.antt =====
-- src/numa.rs on Linux, in four parts: the node count of sysfs, the library `libnuma` that is
-- loaded once, the number of nodes, and the placement of threads and memory.
pub mod Sysfs
pub mod Library
pub mod Nodes
pub mod Placement
pub mod Ownership
pub mod Count
pub mod Allocated
pub mod Threads
pub mod Handles
pub mod Online
