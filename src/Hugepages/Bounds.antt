-- ===== src/Hugepages/Bounds.antt =====
-- src/hugepages.rs: `align_up` against the multiples of the alignment.
use kernelkit.Common.{ℕ, ◌+◌, ◌*◌, ◌/◌, ◌%◌, ◌≤◌, ◌<◌, ◌≡◌, ◌↔◌, arith, some, none}
use kernelkit.Lengths.{usize_max}
use kernelkit.Hugepages.Allocation.{align_up}
use native.Mathlib.Decide.{dec_lt}
use native.Mathlib.Nat.{mul-le-mul_right}

-- A multiple of `a` from `q * a + s` on, where `0 < s`, is at least `(q + 1) * a`.
next_multiple : (a q s j : ℕ) → 0 < s → s < a → q * a + s ≤ j * a → q * a + a ≤ j * a
next_multiple a q s j hs ha h = elim (dec_lt q j) [
  | yes more ↦ omega (arith, mul-le-mul_right a more)
  | no few ↦ let fewer : j ≤ q = omega arith in absurd (omega (arith, mul-le-mul_right a fewer))
]

multiple_mod : (a q : ℕ) → 0 < a → (q * a + a) % a ≡ 0
multiple_mod a q h = grind arith

quotient : (v a : ℕ) → v ≡ v / a * a + v % a
quotient v a = grind arith

-- The result is a multiple of the alignment, not below the value, and no larger than any other such
-- multiple.
pub align_up_least :
    (value alignment r m : ℕ)
    → 0 < alignment
    → align_up value alignment ≡ some r
    → value ≤ m
    → m % alignment ≡ 0
    → (r % alignment ≡ 0) × (value ≤ r) × (r ≤ m)
unfolding align_up
align_up_least v a r m ha h hm hd = (
  ground (arith, quotient v a, multiple_mod a (v / a)),
  ground arith,
  ground (arith, quotient v a, quotient m a, next_multiple a (v / a) (v % a) (m / a)),
)

-- There is no result only where no multiple that is not below the value fits in a `usize`.
pub align_up-none :
    (value alignment m : ℕ)
    → 0 < alignment
    → align_up value alignment ≡ none
    → value ≤ m
    → m % alignment ≡ 0
    → usize_max < m
unfolding align_up
align_up-none v a m ha h hm hd =
    ground (arith, quotient v a, quotient m a, next_multiple a (v / a) (v % a) (m / a))

-- Two multiples that lie less than an alignment apart are the same.
same_multiple : (a x y : ℕ) → 0 < a → x % a ≡ 0 → y % a ≡ 0 → x ≤ y → y < x + a → x ≡ y
same_multiple a x y ha hx hy le near = elim (dec_lt (x / a) (y / a)) [
  | yes more ↦ absurd (omega (arith, quotient x a, quotient y a, mul-le-mul_right a more))
  | no few ↦
      let fewer : y / a ≤ x / a = omega arith in
      omega (arith, quotient x a, quotient y a, mul-le-mul_right a fewer)
]

-- For a value and an alignment that are not out of range, a number is the result exactly if it is a
-- multiple of the alignment, is not below the value, is less than an alignment above it, and fits in a
-- `usize`; so there is none where that multiple does not fit.
pub align_up_iff :
    (value alignment r : ℕ)
    → 0 < alignment
    → value ≤ usize_max
    → (align_up value alignment ≡ some r)
      ↔ ((r % alignment ≡ 0) × (value ≤ r) × (r < value + alignment) × (r ≤ usize_max))
unfolding align_up
align_up_iff v a r ha hv = (
  λ h. (
    ground (arith, quotient v a, multiple_mod a (v / a)),
    ground arith,
    ground (arith, quotient v a),
    ground arith,
  ),
  λ (multiple, from, near, fits). ground (
    arith,
    quotient v a,
    quotient r a,
    multiple_mod a (v / a),
    next_multiple a (v / a) (v % a) (r / a),
    same_multiple a v r,
    same_multiple a (v / a * a + a) r,
  ),
)
