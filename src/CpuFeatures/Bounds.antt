-- ===== src/CpuFeatures/Bounds.antt =====
-- src/cpu_features.rs: the range of the cache sizes that are read.
use kernelkit.Common.{ℕ, ◌+◌, ◌*◌, ◌≤◌, ◌≡◌, [], ◌∷◌, some, arith, Option-cases, inl, inr}
use kernelkit.Text.{Text, to_digit, strip_plus, parse_some, parse_digits, from_str_radix, u64_max}
use kernelkit.Lengths.{usize_max}
use kernelkit.CpuFeatures.CacheValue.{parse_cache_value}

parse_digits_le :
    (radix most : ℕ) (s : Text) (n m : ℕ)
    → n ≤ most
    → parse_digits radix most s n ≡ some m
    → m ≤ most
unfolding parse_digits
parse_digits_le radix most [] n m h e = ground arith
parse_digits_le radix most (c ∷ s) n m h e = elim (Option-cases (to_digit radix c)) [
  | inl bad ↦ ground arith
  | inr (d, digit) ↦ ground (arith, parse_digits_le radix most s (n * radix + d) m)
]

parse_some_le : (radix most : ℕ) (s : Text) (m : ℕ) → parse_some radix most s ≡ some m → m ≤ most
parse_some_le radix most [] m e = ground arith
parse_some_le radix most (c ∷ s) m e = parse_digits_le radix most (c ∷ s) 0 m (omega arith) e

from_str_radix_le :
    (radix most : ℕ) (s : Text) (m : ℕ) → from_str_radix radix most s ≡ some m → m ≤ most
unfolding from_str_radix
from_str_radix_le radix most s m e = parse_some_le radix most (strip_plus s) m e

-- A cache size that is read is at most the largest `usize`: a product with its unit that does not fit
-- is refused.
pub parse_cache_value_le :
    (raw : Text) (size : ℕ) → parse_cache_value raw ≡ some size → size ≤ usize_max
unfolding parse_cache_value
parse_cache_value_le raw size e = grind (arith, from_str_radix_le 10 u64_max)
