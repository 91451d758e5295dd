-- ===== src/Bytes.antt =====
-- The slice and integer primitives of the standard library that the byte formats rest on:
-- `split_at`, slice equality, `to_le_bytes`, `from_le_bytes` and the conversion to `[u8; 8]`.
-- A byte slice is a list of numbers below 256.
pub mod Laws
use kernelkit.Common.{
  ℕ, zero, suc, ◌+◌, ◌*◌, ◌/◌, ◌%◌, ◌<◌, Bool, true, false, ◌&&◌, List, [], ◌∷◌, leb, ◌==◌, length,
  take, drop, replicate, if◌then◌else◌,
}
use kernelkit.Errors.{Result, ok, panicked}

abbrev pub Bytes : Type 0
Bytes = List ℕ

abbrev pub IsByte : ℕ → Type 0
IsByte b = b < 256

-- `slice::split_at`, which panics past the end.
unfoldable pub split_at {ℓ} : {A : Type ℓ} → ℕ → List A → Result (List A × List A)
split_at n xs = if leb n (length xs) then ok (take n xs, drop n xs) else panicked

unfoldable pub bytes_eq : Bytes → Bytes → Bool
bytes_eq [] [] = true
bytes_eq [] (y ∷ ys) = false
bytes_eq (x ∷ xs) [] = false
bytes_eq (x ∷ xs) (y ∷ ys) = x == y && bytes_eq xs ys

-- The lowest `k` bytes of a number, lowest first.
unfoldable pub le_bytes : ℕ → ℕ → Bytes
le_bytes zero v = []
le_bytes (suc k) v = (v % 256) ∷ le_bytes k (v / 256)

-- `u64::to_le_bytes`
abbrev pub to_le_bytes : ℕ → Bytes
to_le_bytes = le_bytes 8

-- `u64::from_le_bytes`
unfoldable pub from_le_bytes : Bytes → ℕ
from_le_bytes [] = 0
from_le_bytes (b ∷ bs) = b + 256 * from_le_bytes bs

-- `version_bytes.try_into().unwrap_or([0; 8])`
unfoldable pub to_array_8 : Bytes → Bytes
to_array_8 bs = if length bs == 8 then bs else replicate 8 0
