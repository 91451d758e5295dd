-- ===== src/Memory.antt =====
-- src/memory.rs on Linux, in two parts: the text of `/proc/meminfo`, and the status that is made of
-- its counters.
pub mod Meminfo
pub mod Status
pub mod Counted
pub mod Printed
pub mod Entries
pub mod Loop
