-- ===== src/CpuFeatures/CacheValue.antt =====
-- src/cpu_features.rs: `parse_cache_value`, a number with a unit.
use kernelkit.Common.{ℕ, ◌*◌, List, [], ◌∷◌, Option, none, some}
use kernelkit.Text.{Text, codes, trim, to_ascii_uppercase, strip_suffix, parse_u64, checked}
use kernelkit.Lengths.{usize_max}

-- `a.or_else(|| b)`
abbrev pub or_else {ℓ} : {A : Type ℓ} → Option A → Option A → Option A
or_else (some a) b = some a
or_else none b = b

abbrev pub bind {ℓ κ} : {A : Type ℓ} {B : Type κ} → Option A → (A → Option B) → Option B
bind none f = none
bind (some a) f = f a

-- `checked_mul(1024)`
abbrev times_1024 : ℕ → Option ℕ
times_1024 n = checked usize_max (n * 1024)

-- The number in front of the first of the unit's spellings that ends the text.
unfoldable pub strip_unit : List Text → Text → Option Text
strip_unit [] s = none
strip_unit (unit ∷ units) s = or_else (strip_suffix unit s) (strip_unit units s)

abbrev pub number : Text → Option ℕ
number val = parse_u64 (trim val)

abbrev pub gib : List Text
gib = codes "GIB" ∷ codes "GB" ∷ codes "G" ∷ []

abbrev pub mib : List Text
mib = codes "MIB" ∷ codes "MB" ∷ codes "M" ∷ []

abbrev pub kib : List Text
kib = codes "KIB" ∷ codes "KB" ∷ codes "K" ∷ []

abbrev pub plain_bytes : List Text
plain_bytes = codes "BYTES" ∷ codes "B" ∷ []

-- The units in the order in which the source tries them; `none` is its `Err(())`.
abbrev pub by_bytes : Text → Option Text → Option ℕ
by_bytes s (some val) = number val
by_bytes s none = parse_u64 s

abbrev pub by_kib : Text → Option Text → Option ℕ
by_kib s (some val) = bind (number val) times_1024
by_kib s none = by_bytes s (strip_unit plain_bytes s)

abbrev pub by_mib : Text → Option Text → Option ℕ
by_mib s (some val) = bind (bind (number val) times_1024) times_1024
by_mib s none = by_kib s (strip_unit kib s)

abbrev pub by_gib : Text → Option Text → Option ℕ
by_gib s (some val) = bind (bind (bind (number val) times_1024) times_1024) times_1024
by_gib s none = by_mib s (strip_unit mib s)

abbrev pub unless_empty : Text → Option ℕ
unless_empty [] = none
unless_empty (c ∷ s) = by_gib (c ∷ s) (strip_unit gib (c ∷ s))

-- `parse_cache_value`
unfoldable pub parse_cache_value : Text → Option ℕ
unfolding strip_unit
parse_cache_value raw = unless_empty (to_ascii_uppercase (trim raw))
