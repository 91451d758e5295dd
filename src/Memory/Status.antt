-- ===== src/Memory/Status.antt =====
-- src/memory.rs: `MemoryStatus`, from the counters; a counter of KiB becomes bytes, saturating.
use kernelkit.Common.{ℕ, ◌+◌, ◌*◌, min, String, Option, none, some}
use kernelkit.Errors.{Result, ok, err, ◌>>=◌, Io, done, failed, sysfs_read, sysfs_parse}
use kernelkit.Text.{Text, u64_max, checked}
use kernelkit.Machine.{Os, State, M, lift, call}
use kernelkit.Machine as Machine
use kernelkit.Machine.Syscalls as Sys
use kernelkit.Memory.Meminfo.{Counters, no_counters, lines, read_lines}

-- `MemoryStatus`
pub record MemoryStatus : Type 0 where
  pub available_bytes : ℕ
  pub total_bytes : ℕ

-- `MemoryStatus::zero`
abbrev pub zero_status : MemoryStatus
zero_status = record { available_bytes = 0; total_bytes = 0 }

abbrev pub proc_meminfo_path : String
proc_meminfo_path = "/proc/meminfo"

-- `MemoryStatus::kib_to_bytes`
unfoldable pub kib_to_bytes : ℕ → ℕ
kib_to_bytes kib = min (kib * 1024) u64_max

abbrev pub bytes_of : Option ℕ → Result ℕ
bytes_of none = err (sysfs_parse proc_meminfo_path)
bytes_of (some kib) = ok (kib_to_bytes kib)

abbrev pub or_zero : Option ℕ → ℕ
or_zero none = 0
or_zero (some n) = n

abbrev add_checked : Option ℕ → ℕ → Option ℕ
add_checked none m = none
add_checked (some n) m = checked u64_max (n + m)

-- The available memory: the counter itself, or the free, buffered and cached memory together.
abbrev pub available_kib : Counters → Option ℕ → Option ℕ
available_kib c (some n) = some n
available_kib c none =
    add_checked (add_checked c.mem_free_kib (or_zero c.buffers_kib)) (or_zero c.cached_kib)

-- `read_from_meminfo` behind its loop.
unfoldable pub status_of : Counters → Result MemoryStatus
unfolding kib_to_bytes
status_of c = do
  total_bytes ← bytes_of c.mem_total_kib
  available_bytes ← bytes_of (available_kib c c.mem_available_kib)
  ok (record { available_bytes = available_bytes; total_bytes = total_bytes })

-- `read_from_meminfo` behind the reading of the file
unfoldable pub parse_meminfo : Text → Result MemoryStatus
parse_meminfo contents = status_of (read_lines (lines contents) no_counters)

abbrev contents_or : Io Text → Result Text
contents_or (done contents) = ok contents
contents_or (failed source) = err (sysfs_read proc_meminfo_path source)

-- `MemoryStatus::read_from_meminfo`, which is `memory_pressure`
unfoldable pub memory_pressure : Os → M MemoryStatus
memory_pressure os =
    Machine.◌>>=◌ (call (Sys.read_text os proc_meminfo_path))
      λ answer. lift (contents_or answer >>= parse_meminfo)
