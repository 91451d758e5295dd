-- ===== src/Prefetch/Lines.antt =====
-- src/prefetch.rs: what `prefetch_range` touches.
use kernelkit.Common.{
  ℕ, zero, suc, ◌+◌, ◌≤◌, ◌<◌, min, max, ◌≡◌, refl, Bool, true, false, ◌&&◌, ◌||◌, [], ◌∷◌, ltb,
  leb, arith, All,
}
use kernelkit.Lengths.{usize_max}
use kernelkit.Prefetch.{
  Hint, t0, Touched, prefetch_impl, prefetch_range, touch_lines, max_prefetch_bytes,
}

-- A touched address lies inside a range.
abbrev pub Within : ℕ → ℕ → ℕ × Hint → Type 0
Within ptr n (p, hint) = (ptr ≤ p) × (p < ptr + n)

-- Some touched line holds the byte at an address.
abbrev pub covers : ℕ → ℕ → Touched → Bool
covers line a [] = false
covers line a ((p, hint) ∷ touched) = (leb p a && ltb a (p + line)) || covers line a touched

pub prefetch_impl_pos :
    (p : ℕ) (touched : Touched) → 1 ≤ p → prefetch_impl p false touched ≡ (p, t0) ∷ touched
unfolding prefetch_impl
prefetch_impl_pos zero touched h = absurd (omega arith)
prefetch_impl_pos (suc p) touched h = refl

touch_lines-Within :
    (fuel ptr n line offset : ℕ) (touched : Touched)
    → 1 ≤ ptr
    → All (Within ptr n) touched
    → All (Within ptr n) (touch_lines fuel ptr n line offset touched)
unfolding touch_lines
touch_lines-Within zero ptr n line offset touched pos h = h
touch_lines-Within (suc fuel) ptr n line offset touched pos h =
    let ih =
      touch_lines-Within fuel ptr n line (min (offset + line) usize_max)
        ((ptr + offset, t0) ∷ touched) pos in
    rw (prefetch_impl_pos (ptr + offset) touched (omega arith)) (ground (arith, ih))

touch_lines-keeps :
    (fuel ptr n line offset line' a : ℕ) (touched : Touched)
    → 1 ≤ ptr
    → covers line' a touched ≡ true
    → covers line' a (touch_lines fuel ptr n line offset touched) ≡ true
unfolding touch_lines
touch_lines-keeps zero ptr n line offset line' a touched pos h = h
touch_lines-keeps (suc fuel) ptr n line offset line' a touched pos h =
    let ih =
      touch_lines-keeps fuel ptr n line (min (offset + line) usize_max) line' a
        ((ptr + offset, t0) ∷ touched) pos in
    rw (prefetch_impl_pos (ptr + offset) touched (omega arith)) (ground (arith, ih))

touch_lines-covers :
    (fuel ptr n line offset i : ℕ) (touched : Touched)
    → 1 ≤ ptr
    → 1 ≤ line
    → n ≤ usize_max
    → n ≤ fuel + offset
    → offset ≤ i
    → i < n
    → covers line (ptr + i) (touch_lines fuel ptr n line offset touched) ≡ true
unfolding touch_lines
touch_lines-covers zero ptr n line offset i touched pos pos' small enough from below =
    absurd (omega arith)
touch_lines-covers (suc fuel) ptr n line offset i touched pos pos' small enough from below =
    let next = min (offset + line) usize_max in
    let ih =
      touch_lines-covers fuel ptr n line next i ((ptr + offset, t0) ∷ touched) pos pos' small in
    let kept =
      touch_lines-keeps fuel ptr n line next line (ptr + i) ((ptr + offset, t0) ∷ touched) pos in
    rw (prefetch_impl_pos (ptr + offset) touched (omega arith)) (ground (arith, ih, kept))

-- From a pointer that is not null, `prefetch_range` touches addresses of the range only, and of its
-- first 2 MiB.
pub prefetch_range-Within :
    (cache_line_size ptr len : ℕ)
    → 1 ≤ ptr
    → All (Within ptr (min len max_prefetch_bytes)) (prefetch_range cache_line_size ptr len [])
unfolding prefetch_range
prefetch_range-Within cache_line_size ptr len pos =
    let n = min len max_prefetch_bytes in
    ground (arith, touch_lines-Within n ptr n (max cache_line_size 1) 0 [] pos tt)

-- From a pointer that is not null, each byte of the first 2 MiB of the range lies on a line that
-- `prefetch_range` touches, so the loop's fuel is enough. A detected line size of 0 counts as 1.
pub prefetch_range-covers :
    (cache_line_size ptr len i : ℕ)
    → 1 ≤ ptr
    → i < min len max_prefetch_bytes
    → covers (max cache_line_size 1) (ptr + i) (prefetch_range cache_line_size ptr len []) ≡ true
unfolding prefetch_range
prefetch_range-covers cache_line_size ptr len i pos below =
    let n = min len max_prefetch_bytes in
    let line = max cache_line_size 1 in
    let covered =
      touch_lines-covers n ptr n line 0 i [] pos (omega arith) (omega arith) (omega arith)
        (omega arith) in
    ground (arith, covered below)
