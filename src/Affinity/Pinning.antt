-- ===== src/Affinity/Pinning.antt =====
-- src/affinity.rs: `pin_to_core` and `pin_to_numa_node`.
use kernelkit.Common.{ℕ, ◌+◌, ◌*◌, ◌/◌, ◌%◌, ◌^◌, List, leb, set, replicate, get_or, if◌then◌else◌}
use kernelkit.Errors.{system, kind, invalid_input}
use kernelkit.Machine.{Os, M, fail, ◌>>=◌, call}
use kernelkit.Machine.Syscalls as Sys
use kernelkit.Numa.Placement.{pin_to_node}
use Prim.Native.Nat.{bit_or}

-- `libc::CPU_SETSIZE` is 1024, and a word has 64 bits: `1024.div_ceil(64)`.
abbrev pub cpu_set_words : ℕ
cpu_set_words = (1024 + 63) / 64

abbrev pub max_core : ℕ
max_core = cpu_set_words * 64

-- `mask[core_id / 64] |= 1 << (core_id % 64)` on a mask of zeros
unfoldable pub core_mask : ℕ → List ℕ
core_mask core_id =
    let zeros = replicate cpu_set_words 0 in
    set zeros (core_id / 64) (bit_or (get_or zeros (core_id / 64) 0) (2 ^ (core_id % 64)))

module _ (os : Os) where
  -- `pin_to_core`
  unfoldable pub pin_to_core : ℕ → M (Unit {0})
  pin_to_core core_id =
      if leb max_core core_id then fail (system "sched_setaffinity" (kind invalid_input)) else do
        result ← call (Sys.sched_setaffinity os (core_mask core_id))
        Sys.check os "sched_setaffinity" result

  -- `pin_to_numa_node`
  unfoldable pub pin_to_numa_node : ℕ → M (Unit {0})
  pin_to_numa_node node = pin_to_node os node
