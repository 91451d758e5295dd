-- ===== src/Lengths.antt =====
-- src/lib.rs: the checked byte length of an allocation, the test for a length of zero, and the page
-- size. `usize` has 64 bits.
use kernelkit.Common.{
  ℕ, zero, suc, ◌-◌, ◌*◌, ◌^◌, ◌≤◌, ◌<◌, ◌≡◌, ◌↔◌, ℤ, pos, negsuc, String, Option, none, some,
  arith, leb, if◌then◌else◌,
}
use kernelkit.Errors.{Result, ok, err, allocation_overflow}

abbrev pub usize_max : ℕ
usize_max = 2 ^ 64 - 1

-- What `size_of`, `align_of` and `type_name` say of a Rust type.
pub record TypeInfo : Type 0 where
  pub size : ℕ
  pub align : ℕ
  pub type_name : String

-- `checked_len`
unfoldable pub checked_len : TypeInfo → ℕ → Result ℕ
checked_len T count =
    if leb (count * T.size) usize_max
    then ok (count * T.size)
    else err (allocation_overflow count T.type_name)

-- `non_zero_len`
unfoldable pub non_zero_len : ℕ → Option ℕ
non_zero_len zero = none
non_zero_len (suc n) = some (suc n)

-- `page_size`, from what `sysconf(_SC_PAGESIZE)` returns.
unfoldable pub page_size : ℤ → ℕ
page_size (pos zero) = 4096
page_size (pos (suc n)) = suc n
page_size (negsuc n) = 4096

-- A length is given exactly where the product fits, and it is the product.
pub checked_len_iff :
    (T : TypeInfo) (count n : ℕ)
    → (checked_len T count ≡ ok n) ↔ ((n ≡ count * T.size) × (count * T.size ≤ usize_max))
unfolding checked_len
checked_len_iff T count n = ground arith

pub page_size_pos : (ps : ℤ) → 0 < page_size ps
unfolding page_size
page_size_pos (pos zero) = omega arith
page_size_pos (pos (suc n)) = omega arith
page_size_pos (negsuc n) = omega arith
