-- ===== src/Hugepages.antt =====
-- src/hugepages.rs on Linux: the huge-page allocation and its initialisation, and the vector over it
-- or over a plain `Vec`, in two children; their theorems are in the others.
pub mod Allocation
pub mod Vector
pub mod Bounds
pub mod Contents
pub mod Outcomes
pub mod Ownership
pub mod Refinement
pub mod Constructors
