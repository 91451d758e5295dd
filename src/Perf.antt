-- ===== src/Perf.antt =====
-- src/perf.rs on Linux: a hardware counter of the calling thread, as a descriptor.
pub mod Ownership
use kernelkit.Common.{ℕ, zero, suc, ◌-◌, ◌^◌, ℤ, pos, negsuc, is_negative, leb, ◌==◌, if◌then◌else◌}
use kernelkit.Errors.{Result, ok, err, system, custom, unexpected_eof, ErrorKind, text}
use kernelkit.Machine.{Os, State, M, pure, fail, ◌>>=◌, call}
use kernelkit.Machine.Syscalls as Sys

-- `HwCounter`
pub data HwCounter : Type 0 where
  cycles instructions cache_misses branch_misses : HwCounter

-- `PerfCounter`
pub record PerfCounter : Type 0 where
  pub fd : ℕ
  pub counter_type : HwCounter

-- `PerfCounter::counter_type`
unfoldable pub counter_type : PerfCounter → HwCounter
counter_type counter = counter.counter_type

-- `PERF_COUNT_HW_*`
unfoldable pub config : HwCounter → ℕ
config cycles = 0
config instructions = 1
config cache_misses = 3
config branch_misses = 5

-- `size_of::<PerfEventAttr>()`: two `u32`, a `u64` and 120 bytes.
abbrev pub attr_size : ℕ
attr_size = 136

module _ (os : Os) where
  -- `i32::try_from(answer).unwrap_or(-1)`, and the descriptor if it is not negative.
  abbrev opened : HwCounter → ℤ → M PerfCounter
  opened counter (pos fd) s =
      if leb fd (2 ^ 31 - 1)
      then (ok (record { fd = fd; counter_type = counter }), s)
      else (err (system "perf_event_open" (os.last_error s.calls)), s)
  opened counter (negsuc n) s = (err (system "perf_event_open" (os.last_error s.calls)), s)

  -- `PerfCounter::open`
  unfoldable pub open_counter : HwCounter → M PerfCounter
  unfolding config
  open_counter counter =
      call (Sys.perf_event_open os 0 (config counter) attr_size) >>= opened counter

  -- What `read` makes of the number of bytes that were read.
  abbrev counted : ℤ × ℕ → M ℕ
  counted (pos zero, value) = fail (
      system "perf counter read" (
        custom ErrorKind.unexpected_eof
          (text "perf counter returned EOF (counter may have been closed)")))
  counted (pos (suc n), value) = λ s.
      if suc n == 8
      then (ok value, s)
      else (err (system "perf counter read" (os.last_error s.calls)), s)
  counted (negsuc n, value) = λ s. (err (system "perf counter read" (os.last_error s.calls)), s)

  -- `PerfCounter::read`
  unfoldable pub read_value : PerfCounter → M ℕ
  read_value counter = call (Sys.read_counter os counter.fd) >>= counted

  abbrev checked_reset : ℤ → M (Unit {0})
  checked_reset result s =
      if is_negative result
      then (err (system "perf counter reset" (os.last_error s.calls)), s)
      else (ok tt, s)

  -- `PerfCounter::reset`
  unfoldable pub reset : PerfCounter → M (Unit {0})
  reset counter = call (Sys.reset_counter os counter.fd) >>= checked_reset

  -- `Drop for PerfCounter`
  unfoldable pub drop : PerfCounter → State → State
  drop counter s = Sys.close_file os counter.fd s
