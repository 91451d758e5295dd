-- ===== src/Portable/Probes.antt =====
-- src/memory.rs, src/perf.rs and src/readahead.rs where the system is not Linux: a status of zeros, a
-- counter that cannot be had, and hints that are not given.
use kernelkit.Common.{ℕ}
use kernelkit.Errors.{Result, ok, err, system, custom, unsupported, text}
use kernelkit.Memory.Status.{MemoryStatus}
use kernelkit.Perf.{HwCounter, PerfCounter}

-- `MemoryStatus::zero`
unfoldable pub zero_status : MemoryStatus
zero_status = record { available_bytes = 0; total_bytes = 0 }

-- `memory_pressure`
unfoldable pub memory_pressure : Result MemoryStatus
unfolding zero_status
memory_pressure = ok zero_status

-- `PerfCounter::open`
unfoldable pub open_counter : HwCounter → Result PerfCounter
open_counter counter =
    err (system "perf_event_open" (custom unsupported (text "perf_event_open is Linux-only")))

-- `readahead`, `evict_pages` and `advise_sequential`
unfoldable pub readahead : ℕ → ℕ → ℕ → Result (Unit {0})
readahead fd offset count = ok tt

unfoldable pub evict_pages : ℕ → ℕ → ℕ → Result (Unit {0})
evict_pages fd offset len = ok tt

unfoldable pub advise_sequential : ℕ → Result (Unit {0})
advise_sequential fd = ok tt
