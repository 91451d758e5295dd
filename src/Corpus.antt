-- ===== src/Corpus.antt =====
-- src/corpus.rs on Linux, in three parts: the walk that collects the files of a directory, the order
-- of paths, and the mapping of the files within limits.
pub mod Walk
pub mod Order
pub mod Mapping
pub mod Files
pub mod Sorted
pub mod Limits
pub mod Answers
pub mod Run
pub mod Failures
pub mod Outcome
pub mod Ownership
pub mod Canonical
pub mod Shuffled
pub mod Directory
