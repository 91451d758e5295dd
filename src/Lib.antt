-- ===== src/Lib.antt =====
-- kernelkit: a crate of kernel-backed fast paths for Linux, modelled on x86_64 with words of 64
-- bits.
--
-- Parts, their source files and the files here that model them:
-- - src/lib.rs, the errors and their texts, the checked length, the page size: Errors,
--   Errors/Display, Lengths.
-- - src/binformat.rs, the file header (`FileHeader::write_to`, `read_from`) and the section
--   (`read_section`): Binformat, with its theorems in Binformat/Header and Binformat/Section, over
--   the bytes of Bytes. The sink of `write_to` is an interface that `Vec<u8>` fills.
-- - src/file_identity.rs, the fingerprint of a file and its second look: FileIdentity.
-- - src/mmap.rs, anonymous blocks (`MmapBlock`) and read-only maps of files (`open_with_advice`,
--   `open_read_with_size`): Mmap/Block and Mmap/File, with Ownership, Identity, Sized, Advice,
--   Failures and Blocks.
-- - src/hugepages.rs, `HugePageVec` on huge pages or a `Vec`: Hugepages/Allocation and
--   Hugepages/Vector, with Bounds, Contents, Outcomes, Ownership, Refinement (a vector against the
--   list that it shows) and Constructors beside them.
-- - src/corpus.rs, the walk of a directory, the sort and the mapping of its files: Corpus/Walk,
--   Corpus/Order and Corpus/Mapping, with Files, Sorted, Limits and Ownership beside them. Answers,
--   Run, Failures and Outcome describe a run file by file; Canonical, Shuffled and Directory leave
--   the order of the entries out.
-- - src/numa.rs, the node count, the library that is loaded once, and the placement of memory and
--   threads: Numa/Sysfs, Numa/Library, Numa/Nodes and Numa/Placement, with Count, Allocated,
--   Ownership, Handles (the libraries left open) and Online (the list of nodes as the kernel prints
--   it). Numa/Threads is `LinuxNuma::load` as any number of threads interleave it, a step relation
--   over the shared cell and the lock, with its theorems in Facts, Invariant, Outcomes and
--   Progress.
-- - src/affinity.rs: Affinity/IrqMask and Affinity/Pinning, with Masks, Listed, Printed, Accepted,
--   Ascending, Refused and Pinned.
-- - src/cpu_features.rs: CpuFeatures/CacheValue and CpuFeatures/Detect, with Detected, Bounds,
--   Sizes and Printed.
-- - src/prefetch.rs: Prefetch, with Prefetch/Lines and Prefetch/Count.
-- - src/memory.rs: Memory/Meminfo and Memory/Status, with Counted, Printed, Entries and Loop.
-- - src/mlock.rs, src/readahead.rs and src/perf.rs: Locking, PageCache and Perf.
-- - the branches for other systems and architectures: Portable, with FileIdentity, Block, Corpus,
--   Numa, Hugepages, Stores, Probes, CpuFeatures and Prefetch, each against the Linux or unix code
--   where the two are compared.
-- Client is a client of blocks, maps of files, vectors, corpora and counters, which acquires and
-- drops in any order: a ledger of what it holds against what the system has given. Client/Requests
-- is a client of locking, the page cache and pinning, the operations of one call each. Text models
-- the parts of `str` that the source calls, with the numbers and lists that the kernel prints in
-- Text/Printed and Text/Separated, Defaults the filling of a vector by `T::default()`, and Common
-- holds what all share. Runs holds the theorems at concrete inputs.
--
-- How they interact. Machine is the system that the crate runs on: each call that leaves the crate
-- is an event, a record `Os` answers it, and its answer may depend on all the calls before, so a
-- theorem over every `Os` covers every order of successes and failures, and files that change
-- between two calls. A fallible operation is a function from the state (the calls so far, and the
-- cell of the NUMA library) to a result and the state behind it. `defer` and `on_failure` are the
-- drops at the end of a scope, and a panic of `T::default()` is a result of its own. Machine/Held
-- reads off the calls what is mapped and open; `Balanced` says that a run acquired exactly what its
-- result owns. `open_with_limits` uses the walk, the sort and the second look of FileIdentity;
-- `new_on_node` uses the binding of Numa; `HugePageVec` uses the checked length.
--
-- Bounds. Numbers are natural numbers; a `usize` or `u64` sum or product keeps its check or its
-- saturation written out. The walk recurses on the listing, which is given as a finite tree, since
-- a directory is read once and symbolic links are refused. The one loop on fuel is that of
-- `prefetch_range`: each round goes at least one byte further, so the length is fuel enough.
--
-- Not modelled: wasm, where modules are left out and nothing is added; the test hooks of
-- `faultkit`; how `Display` prints a `std::io::Error`, which is a parameter; what is written
-- through the raw pointer of a block; the reads of directories as calls of the system, since the
-- walk takes a listing; concurrent callers of `CpuFeatures::detect`, whose cell, std's `OnceLock`,
-- makes one call a single step. The operations other than `LinuxNuma::load` are modelled for one
-- thread. What `memmap2`, `libc` and `libloading` do is what the `Os` answers.
pub mod Common
pub mod Errors
pub mod Bytes
pub mod Binformat
pub mod Text
pub mod Lengths
pub mod Machine
pub mod Numa
pub mod FileIdentity
pub mod Mmap
pub mod Defaults
pub mod Hugepages
pub mod Corpus
pub mod Affinity
pub mod CpuFeatures
pub mod Prefetch
pub mod Memory
pub mod Locking
pub mod PageCache
pub mod Perf
pub mod Portable
mod Runs
pub mod Client
