-- ===== src/Prefetch.antt =====
-- src/prefetch.rs on x86_64: the hints, and the range that is touched line by line. The state is the
-- list of the lines touched, latest first, each with its hint.
pub mod Lines
pub mod Count
use kernelkit.Common.{
  ℕ, zero, suc, ◌+◌, ◌*◌, min, max, Bool, true, false, ◌||◌, List, [], ◌∷◌, ltb, ◌==◌,
  if◌then◌else◌,
}
use kernelkit.Lengths.{usize_max}

-- `_MM_HINT_T0`, `_MM_HINT_T1`, `_MM_HINT_NTA`
pub data Hint : Type 0 where
  t0 t1 nta : Hint

abbrev pub Touched : Type 0
Touched = List (ℕ × Hint)

-- `prefetch_impl`
unfoldable pub prefetch_impl : ℕ → Bool → Touched → Touched
prefetch_impl zero write touched = touched
prefetch_impl (suc p) true touched = (suc p, t1) ∷ touched
prefetch_impl (suc p) false touched = (suc p, t0) ∷ touched

-- `prefetch_read`
unfoldable pub prefetch_read : ℕ → Touched → Touched
unfolding prefetch_impl
prefetch_read ptr touched = prefetch_impl ptr false touched

-- `prefetch_write`
unfoldable pub prefetch_write : ℕ → Touched → Touched
unfolding prefetch_impl
prefetch_write ptr touched = prefetch_impl ptr true touched

-- `prefetch_nontemporal`
unfoldable pub prefetch_nontemporal : ℕ → Touched → Touched
prefetch_nontemporal zero touched = touched
prefetch_nontemporal (suc p) touched = (suc p, nta) ∷ touched

-- `MAX_PREFETCH_BYTES`
abbrev pub max_prefetch_bytes : ℕ
max_prefetch_bytes = 2 * 1024 * 1024

-- The loop over `offset`, with fuel. `offset.saturating_add(cache_line)`.
unfoldable pub touch_lines : ℕ → ℕ → ℕ → ℕ → ℕ → Touched → Touched
touch_lines zero ptr len cache_line offset touched = touched
touch_lines (suc fuel) ptr len cache_line offset touched =
    let rest =
      touch_lines fuel ptr len cache_line (min (offset + cache_line) usize_max)
        (prefetch_impl (ptr + offset) false touched) in
    if ltb offset len then rest else touched

-- `prefetch_range`, for the line size that `detect` gives, with the length for fuel.
unfoldable pub prefetch_range : ℕ → ℕ → ℕ → Touched → Touched
prefetch_range cache_line_size ptr len touched =
    let n = min len max_prefetch_bytes in
    if ptr == 0 || len == 0 then touched else touch_lines n ptr n (max cache_line_size 1) 0 touched
