-- ===== src/Runs/Probes.antt =====
-- Prefetching, memory, locking, the page cache and counters.
use kernelkit.Common.{
  ◌/◌, ◌+◌, ◌≤◌, ◌<◌, ℕ, ◌^◌, min, max, List, [], ◌∷◌, ◌≡◌, ◌↔◌, ◌*◌, refl, none, some, arith,
}
use kernelkit.Errors.{ok}
use kernelkit.Machine.Held.{held}
use kernelkit.Prefetch.{t0, prefetch_range, touch_lines, prefetch_impl, max_prefetch_bytes}
use kernelkit.Prefetch.Count.{IsTouched, first_lines, div_ceil, prefetch_range-first_lines}
use kernelkit.Memory.Meminfo.{Counters}
use kernelkit.Memory.Status.{MemoryStatus, kib_to_bytes, status_of}
use kernelkit.Memory.Counted.{Available, status_of_iff}
use kernelkit.Client.Requests.{
  Request, lock, evict, advise, pin, after_all, perform_all, Explains, perform_all_lem,
}
use kernelkit.Perf as Perf
use kernelkit.Perf.{cycles, PerfCounter, open_counter, read_value, reset}
use kernelkit.Perf.Ownership.{Use, reading, resetting, use_all, drop-open_counter}
use kernelkit.Runs.Systems.{willing, start}

-- A range of one line's length that starts inside a line, and the line behind that one, on which its last
-- bytes lie.
prefetch_range-first_lines_example :
    (prefetch_range 64 4100 64 []
      ≡ first_lines 4100 (max 64 1) (div_ceil (min 64 max_prefetch_bytes) (max 64 1)))
    × (IsTouched (max 64 1) 65 (prefetch_range 64 4100 64 []) ↔ (
        (4100 / max 64 1 ≤ 65)
        × (65 * max 64 1 < 4100 / max 64 1 * max 64 1 + min 64 max_prefetch_bytes)))
prefetch_range-first_lines_example = prefetch_range-first_lines 64 4100 64 65 (omega arith)

-- Only its first line is touched.
one_line : prefetch_range 64 4100 64 [] ≡ (4100, t0) ∷ []
unfolding prefetch_range touch_lines prefetch_impl
one_line = refl

two_lines : prefetch_range 64 4096 100 [] ≡ (4160, t0) ∷ (4096, t0) ∷ []
unfolding prefetch_range touch_lines prefetch_impl
two_lines = refl

-- The kernel gives no estimate of its own.
abbrev counters : Counters
counters = record {
  mem_total_kib = some 100;
  mem_available_kib = none;
  mem_free_kib = some 10;
  buffers_kib = none;
  cached_kib = some 5;
}

abbrev status : MemoryStatus
status = record { available_bytes = 15 * 1024; total_bytes = 100 * 1024 }

status_of_iff_example : (status_of counters ≡ ok status) ↔ (
    (total kib : ℕ) × (some 100 ≡ some total)
    × Available counters kib
    × (100 * 1024 ≡ kib_to_bytes total)
    × (15 * 1024 ≡ kib_to_bytes kib))
status_of_iff_example = status_of_iff counters status

-- An empty region, a lock, an offset that is out of range, a hint and a core.
abbrev requests : List Request
requests = lock 0 0 ∷ lock 4096 100 ∷ evict 3 (2 ^ 63) 0 ∷ advise 3 ∷ pin 5 ∷ []

perform_all_lem_example :
    ((perform_all willing requests start).1 ≡ after_all requests start)
    × Explains willing start requests (perform_all willing requests start).0
perform_all_lem_example = perform_all_lem willing requests start

abbrev seven : PerfCounter
seven = record { fd = 7; counter_type = cycles }

opened : (open_counter willing cycles start).0 ≡ ok seven
unfolding open_counter
opened = refl

abbrev uses : List Use
uses = resetting ∷ reading ∷ reading ∷ []

drop-open_counter_example :
    held
      (Perf.drop willing seven
        (use_all willing seven uses (open_counter willing cycles start).1)).calls
    ≡ []
drop-open_counter_example = drop-open_counter willing cycles uses start seven opened
