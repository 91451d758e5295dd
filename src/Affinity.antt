-- ===== src/Affinity.antt =====
-- src/affinity.rs on Linux, in two parts: the text of an interrupt's affinity mask, and the pinning
-- of the calling thread.
pub mod IrqMask
pub mod Pinned
pub mod Pinning
pub mod Masks
pub mod Listed
pub mod Printed
pub mod Accepted
pub mod Ascending
pub mod Refused
