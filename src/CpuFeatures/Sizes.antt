-- ===== src/CpuFeatures/Sizes.antt =====
-- src/cpu_features.rs: the units of `parse_cache_value`, behind a number.
use kernelkit.Common.{
  ℕ, ◌*◌, ◌≡◌, refl, sym, ap, ◌∙◌, List, [], ◌∷◌, ◌++◌, Option, none, some, arith, append-nil,
}
use mathlib.Core.List.{reverse, reverse-append, reverse-reverse}
use mathlib.Core.Option as Options
use kernelkit.Text.{Text, codes, parse_u64, u64_max, checked, strip_suffix, strip_prefix}
use kernelkit.Text.Printed.{IsDigit}
use kernelkit.Lengths.{usize_max}
use kernelkit.CpuFeatures.CacheValue.{
  strip_unit, unless_empty, gib, mib, kib, plain_bytes, number, or_else, by_gib, by_mib, by_kib,
  by_bytes,
}

-- The units that are taken, in upper case, and none at all.
pub data SizeUnit : Type 0 where
  unit_gib unit_gb unit_g unit_mib unit_mb unit_m unit_kib unit_kb unit_k unit_bytes unit_b bare :
      SizeUnit

abbrev pub spelled : SizeUnit → Text
spelled unit_gib = codes "GIB"
spelled unit_gb = codes "GB"
spelled unit_g = codes "G"
spelled unit_mib = codes "MIB"
spelled unit_mb = codes "MB"
spelled unit_m = codes "M"
spelled unit_kib = codes "KIB"
spelled unit_kb = codes "KB"
spelled unit_k = codes "K"
spelled unit_bytes = codes "BYTES"
spelled unit_b = codes "B"
spelled bare = []

abbrev pub bytes_in : SizeUnit → ℕ
bytes_in unit_gib = 1024 * 1024 * 1024
bytes_in unit_gb = 1024 * 1024 * 1024
bytes_in unit_g = 1024 * 1024 * 1024
bytes_in unit_mib = 1024 * 1024
bytes_in unit_mb = 1024 * 1024
bytes_in unit_m = 1024 * 1024
bytes_in unit_kib = 1024
bytes_in unit_kb = 1024
bytes_in unit_k = 1024
bytes_in unit_bytes = 1
bytes_in unit_b = 1
bytes_in bare = 1

-- The number in front of a unit, from the reversed text.
strip_reversed : List Text → Text → Option Text
strip_reversed [] r = none
strip_reversed (unit ∷ units) r =
    or_else (Options.map reverse (strip_prefix (reverse unit) r)) (strip_reversed units r)

strip_unit-reversed :
    (units : List Text) (s : Text) → strip_unit units s ≡ strip_reversed units (reverse s)
unfolding strip_unit strip_suffix strip_reversed
strip_unit-reversed [] s = refl
strip_unit-reversed (unit ∷ units) s =
    ap (or_else (strip_suffix unit s)) (strip_unit-reversed units s)

-- Of a unit's spellings, none ends the text, or one does and leaves the number.
abbrev Misses : List Text → Text → Text → Type 0
Misses units r t = strip_reversed units (reverse t ++ r) ≡ none

abbrev Hits : List Text → Text → Text → Type 0
Hits units r t = strip_reversed units (reverse t ++ r) ≡ some (reverse r)

-- A number that is not empty, in front of a unit; `r` is its text in reverse.
module _ (c n : ℕ) (s r : Text) (e : reverse (c ∷ s) ≡ r)
    (parsed : number (c ∷ s) ≡ checked u64_max n) where
  behind :
      (units : List Text) (t : Text)
      → strip_unit units (c ∷ s ++ t) ≡ strip_reversed units (reverse t ++ r)
  behind units t =
      strip_unit-reversed units (c ∷ s ++ t)
      ∙ ap (strip_reversed units) (reverse-append (c ∷ s) t ∙ ap (λ r. reverse t ++ r) e)

  hit :
      (units : List Text) (t : Text) → Hits units r t → strip_unit units (c ∷ s ++ t) ≡ some (c ∷ s)
  hit units t h = behind units t ∙ h ∙ ap some (sym (ap reverse e) ∙ reverse-reverse (c ∷ s))

  gib_size :
      (t : Text)
      → Hits gib r t
      → unless_empty (c ∷ s ++ t) ≡ checked usize_max (n * (1024 * 1024 * 1024))
  gib_size t h = ap (by_gib (c ∷ s ++ t)) (hit gib t h) ∙ ground (arith, parsed)

  mib_size :
      (t : Text)
      → Misses gib r t
      → Hits mib r t
      → unless_empty (c ∷ s ++ t) ≡ checked usize_max (n * (1024 * 1024))
  mib_size t m h =
      ap (by_gib (c ∷ s ++ t)) (behind gib t ∙ m)
      ∙ ap (by_mib (c ∷ s ++ t)) (hit mib t h)
      ∙ ground (arith, parsed)

  kib_size :
      (t : Text)
      → Misses gib r t
      → Misses mib r t
      → Hits kib r t
      → unless_empty (c ∷ s ++ t) ≡ checked usize_max (n * 1024)
  kib_size t m m' h =
      ap (by_gib (c ∷ s ++ t)) (behind gib t ∙ m)
      ∙ ap (by_mib (c ∷ s ++ t)) (behind mib t ∙ m')
      ∙ ap (by_kib (c ∷ s ++ t)) (hit kib t h)
      ∙ ground (arith, parsed)

  bytes_after :
      (t : Text) (val : Option Text)
      → Misses gib r t
      → Misses mib r t
      → Misses kib r t
      → strip_unit plain_bytes (c ∷ s ++ t) ≡ val
      → unless_empty (c ∷ s ++ t) ≡ by_bytes (c ∷ s ++ t) val
  bytes_after t val m m' m'' h =
      ap (by_gib (c ∷ s ++ t)) (behind gib t ∙ m)
      ∙ ap (by_mib (c ∷ s ++ t)) (behind mib t ∙ m')
      ∙ ap (by_kib (c ∷ s ++ t)) (behind kib t ∙ m'')
      ∙ ap (by_bytes (c ∷ s ++ t)) h

  bytes_size :
      (t : Text)
      → Misses gib r t
      → Misses mib r t
      → Misses kib r t
      → Hits plain_bytes r t
      → unless_empty (c ∷ s ++ t) ≡ checked usize_max (n * 1)
  bytes_size t m m' m'' h =
      bytes_after t (some (c ∷ s)) m m' m'' (hit plain_bytes t h) ∙ ground (arith, parsed)

  bare_size :
      parse_u64 (c ∷ s) ≡ checked u64_max n
      → Misses gib r []
      → Misses mib r []
      → Misses kib r []
      → Misses plain_bytes r []
      → unless_empty (c ∷ s ++ []) ≡ checked usize_max (n * 1)
  bare_size whole m m' m'' none_left =
      bytes_after [] none m m' m'' (behind plain_bytes [] ∙ none_left)
      ∙ ap parse_u64 (append-nil (c ∷ s))
      ∙ ground (arith, whole)

module _ (c d n : ℕ) (s ds : Text) (e : reverse (c ∷ s) ≡ d ∷ ds) (digit : IsDigit 10 d)
    (parsed : number (c ∷ s) ≡ checked u64_max n)
    (whole : parse_u64 (c ∷ s) ≡ checked u64_max n) where
  pub unit_size :
      (unit : SizeUnit)
      → unless_empty (c ∷ s ++ spelled unit) ≡ checked usize_max (n * bytes_in unit)
  unfolding strip_reversed strip_prefix
  unit_size unit_gib = gib_size c n s (d ∷ ds) e parsed (codes "GIB") (ground arith)
  unit_size unit_gb = gib_size c n s (d ∷ ds) e parsed (codes "GB") (ground arith)
  unit_size unit_g = gib_size c n s (d ∷ ds) e parsed (codes "G") (ground arith)
  unit_size unit_mib = mib_size c n s (d ∷ ds) e parsed (codes "MIB") (ground arith) (ground arith)
  unit_size unit_mb = mib_size c n s (d ∷ ds) e parsed (codes "MB") (ground arith) (ground arith)
  unit_size unit_m = mib_size c n s (d ∷ ds) e parsed (codes "M") (ground arith) (ground arith)
  unit_size unit_kib =
      kib_size c n s (d ∷ ds) e parsed (codes "KIB") (ground arith) (ground arith) (ground arith)
  unit_size unit_kb =
      kib_size c n s (d ∷ ds) e parsed (codes "KB") (ground arith) (ground arith) (ground arith)
  unit_size unit_k =
      kib_size c n s (d ∷ ds) e parsed (codes "K") (ground arith) (ground arith) (ground arith)
  unit_size unit_bytes =
      bytes_size c n s (d ∷ ds) e parsed (codes "BYTES") (ground arith) (ground arith)
        (ground arith) (ground arith)
  unit_size unit_b =
      bytes_size c n s (d ∷ ds) e parsed (codes "B") (ground arith) (ground arith) (ground arith)
        (ground arith)
  unit_size bare =
      bare_size c n s (d ∷ ds) e parsed whole (ground arith) (ground arith) (ground arith)
        (ground arith)
