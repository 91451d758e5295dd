-- ===== src/Prefetch/Count.antt =====
-- src/prefetch.rs: the lines of a range, in order and without a gap.
use kernelkit.Common.{
  ℕ, zero, suc, ◌+◌, ◌*◌, ◌-◌, ◌/◌, ◌%◌, ◌≤◌, ◌<◌, min, max, ◌≡◌, sym, ap, ◌∙◌, ◌⊎◌, ◌↔◌, [], ◌∷◌,
  ltb, ◌==◌, ◌||◌, arith, dec_lt, Bool-cases, inl, inr,
}
use native.Mathlib.Nat.{mul-le-mul_right, add-mul-div_right}
use kernelkit.Lengths.{usize_max}
use kernelkit.Prefetch.{Touched, t0, prefetch_range, touch_lines, max_prefetch_bytes}
use kernelkit.Prefetch.Lines.{prefetch_impl_pos}

-- The first lines of a range, latest first.
abbrev pub first_lines : ℕ → ℕ → ℕ → Touched
first_lines ptr line zero = []
first_lines ptr line (suc k) = (ptr + k * line, t0) ∷ first_lines ptr line k

-- How many lines it takes to hold `n` bytes.
abbrev pub div_ceil : ℕ → ℕ → ℕ
div_ceil n line = (n + line - 1) / line

div_ceil_lem :
    (n line : ℕ) → 0 < line → (n ≤ div_ceil n line * line) × (div_ceil n line * line < n + line)
div_ceil_lem n line h = ground (arith, quotient)
  where
    quotient : n + line - 1 ≡ div_ceil n line * line + (n + line - 1) % line
    quotient = grind arith

-- The number of lines is reached where the lines so far hold all bytes.
enough_lines : (n line m k : ℕ) → m * line < n + line → k ≤ m → n ≤ k * line → k ≡ m
enough_lines n line m k last le all = elim (dec_lt k m) [
  | yes more ↦ absurd (omega (arith, mul-le-mul_right line more))
  | no few ↦ omega arith
]

more_lines : (n line m k : ℕ) → n ≤ m * line → k * line < n → k < m
more_lines n line m k all few = elim (dec_lt k m) [
  | yes more ↦ more
  | no less ↦ let le : m ≤ k = omega arith in absurd (omega (arith, mul-le-mul_right line le))
]

-- From the first `k` lines on, the loop goes on to the last.
touch_lines-first_lines :
    (fuel ptr n line m k : ℕ)
    → 1 ≤ ptr
    → 0 < line
    → n < usize_max
    → n ≤ m * line
    → m * line < n + line
    → k ≤ m
    → n ≤ fuel + min (k * line) usize_max
    → touch_lines fuel ptr n line (min (k * line) usize_max) (first_lines ptr line k)
      ≡ first_lines ptr line m
unfolding touch_lines
touch_lines-first_lines zero ptr n line m k pos pos' small all last le enough =
    ap (first_lines ptr line) (enough_lines n line m k last le (omega arith))
touch_lines-first_lines (suc fuel) ptr n line m k pos pos' small all last le enough =
    elim (Bool-cases (ltb (min (k * line) usize_max) n)) [
      | inr e ↦ rw e (ap (first_lines ptr line) (enough_lines n line m k last le (ground arith)))
      | inl e ↦
          let inside : k * line < n = ground arith in
          let here : min (k * line) usize_max ≡ k * line = ground arith in
          let next : min (k * line + line) usize_max ≡ min (suc k * line) usize_max = omega arith in
          let ih =
            touch_lines-first_lines fuel ptr n line m (suc k) pos pos' small all last
              (more_lines n line m k all inside) (omega (arith, inside, next)) in
          rw e (
            rw here (
              rw (prefetch_impl_pos (ptr + k * line) (first_lines ptr line k) (omega arith))
                (rw next ih)))
    ]

-- Line after line from the pointer on, to the end of the first 2 MiB of the range.
in_order :
    (cache_line_size ptr len : ℕ)
    → 1 ≤ ptr
    → let line = max cache_line_size 1 in
      prefetch_range cache_line_size ptr len []
      ≡ first_lines ptr line (div_ceil (min len max_prefetch_bytes) line)
unfolding prefetch_range
in_order cache_line_size ptr len pos =
    let line = max cache_line_size 1 in
    let n = min len max_prefetch_bytes in
    let (all, last) = div_ceil_lem n line (omega arith) in
    let from : min (0 * line) usize_max ≡ 0 = omega arith in
    let loop =
      touch_lines-first_lines n ptr n line (div_ceil n line) 0 pos (omega arith) (omega arith) all
        last (omega arith) (omega arith) in
    elim (Bool-cases (ptr == 0 || len == 0)) [
      | inr e ↦ rw e (ap (λ k. touch_lines n ptr n line k []) (sym from) ∙ loop)
      | inl e ↦ rw e (
          ap (first_lines ptr line)
            (enough_lines n line (div_ceil n line) 0 last (omega arith) (ground arith)))
    ]

-- Some address that is touched lies on the line.
abbrev pub IsTouched : ℕ → ℕ → Touched → Type 0
IsTouched line l [] = ⊥
IsTouched line l ((p, hint) ∷ touched) = (p / line ≡ l) ⊎ IsTouched line l touched

IsTouched-first_lines :
    (ptr line l m : ℕ)
    → 0 < line
    → IsTouched line l (first_lines ptr line m) ↔ ((ptr / line ≤ l) × (l < ptr / line + m))
IsTouched-first_lines ptr line l zero h = grind arith
IsTouched-first_lines ptr line l (suc m) h =
    rw (add-mul-div_right ptr m h) (grind (arith, IsTouched-first_lines ptr line l m h))

-- As many lines as hold `n` bytes, from one on, end in front of the line `n` bytes further.
before_the_end :
    (a l n line : ℕ) → 0 < line → a ≤ l → (l < a + div_ceil n line) ↔ (l * line < a * line + n)
before_the_end a l n line h from =
    let (all, last) = div_ceil_lem n line h in
    let m = div_ceil n line in
    (
      λ below.
          let le : suc l ≤ a + m = omega (arith, below) in
          omega (arith, all, last, mul-le-mul_right line le),
      λ inside. elim (dec_lt l (a + m)) [
        | yes below ↦ below
        | no past ↦
            let le : a + m ≤ l = omega (arith, past) in
            absurd (omega (arith, inside, all, mul-le-mul_right line le))
      ],
    )

-- From a pointer that is not null, `prefetch_range` touches addresses a line's size apart, from the
-- pointer on, each once, as many as it takes to hold the length, at most 2 MiB; the loop's fuel is
-- enough. A line holds one of them exactly if it overlaps that many bytes counted from the start of the
-- pointer's line. A detected line size of 0 counts as 1.
pub prefetch_range-first_lines :
    (cache_line_size ptr len l : ℕ)
    → 1 ≤ ptr
    → let line = max cache_line_size 1 in
      let n = min len max_prefetch_bytes in
      let touched = prefetch_range cache_line_size ptr len [] in
      (touched ≡ first_lines ptr line (div_ceil n line))
      × (IsTouched line l touched ↔ ((ptr / line ≤ l) × (l * line < ptr / line * line + n)))
prefetch_range-first_lines cache_line_size ptr len l pos =
    let line = max cache_line_size 1 in
    let n = min len max_prefetch_bytes in
    let same = in_order cache_line_size ptr len pos in
    let (to, from) = IsTouched-first_lines ptr line l (div_ceil n line) (omega arith) in
    let ends = before_the_end (ptr / line) l n line (omega arith) in
    (
      same,
      rw same (
        λ touched. let (above, below) = to touched in (above, (ends above).0 below),
        λ (above, below). from (above, (ends above).1 below),
      ),
    )
