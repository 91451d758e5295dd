-- ===== src/CpuFeatures/Printed.antt =====
-- src/cpu_features.rs: a size as sysfs prints it, in decimal digits and with a unit, against
-- `parse_cache_value`.
use kernelkit.Common.{
  ℕ, ◌*◌, ◌≤◌, ◌≡◌, refl, sym, ap, ◌∙◌, [], ◌∷◌, ◌++◌, inl, inr, arith, append-nil,
}
use mathlib.Core.List.{reverse_aux}
use kernelkit.Text.{Text, trim, parse_u64, u64_max, checked, is_whitespace, to_ascii_uppercase}
use kernelkit.Text.Printed.{
  decimal, IsDigit, Every, printed-IsDigit, decimal-IsDigit, from_str_radix-printed,
}
use kernelkit.Text.Separated.{IsInk, IsBlank, trim-Ink, Every-map, Every-append}
use kernelkit.Lengths.{usize_max}
use kernelkit.CpuFeatures.CacheValue.{parse_cache_value, unless_empty, number}
use kernelkit.CpuFeatures.Sizes.{
  SizeUnit, spelled, bytes_in, unit_size, unit_gib, unit_gb, unit_g, unit_mib, unit_mb, unit_m,
  unit_kib, unit_kb, unit_k, unit_bytes, unit_b, bare,
}

decimal-Ink : (n : ℕ) → Every IsInk (decimal n)
unfolding is_whitespace
decimal-Ink n = Every-map (decimal n) digit-Ink (decimal-IsDigit n)
  where
    digit-Ink : (c : ℕ) → IsDigit 10 c → IsInk c
    digit-Ink c (inl h) = ground arith
    digit-Ink c (inr h) = absurd (omega arith)

parse_decimal : (n : ℕ) → parse_u64 (trim (decimal n)) ≡ checked u64_max n
parse_decimal n =
    ap (λ t. parse_u64 (trim t)) (sym (append-nil (decimal n)))
    ∙ ap parse_u64 (trim-Ink (decimal n) [] (decimal-Ink n) tt)
    ∙ from_str_radix-printed 10 n (omega arith) u64_max (omega arith)

uppercase-append :
    (s t : Text) → to_ascii_uppercase (s ++ t) ≡ to_ascii_uppercase s ++ to_ascii_uppercase t
unfolding to_ascii_uppercase
uppercase-append [] t = refl
uppercase-append (c ∷ s) t = cc (uppercase-append s t)

uppercase-digits : (s : Text) → Every (IsDigit 10) s → to_ascii_uppercase s ≡ s
unfolding to_ascii_uppercase
uppercase-digits [] h = refl
uppercase-digits (c ∷ s) (inl h, h') = ground (arith, uppercase-digits s h')
uppercase-digits (c ∷ s) (inr h, h') = absurd (omega arith)

abbrev IsCapital : ℕ → Type 0
IsCapital c = (b'A' ≤ c) × (c ≤ b'Z')

capital-Ink : (s : Text) → Every IsCapital (to_ascii_uppercase s) → Every IsInk s
unfolding to_ascii_uppercase is_whitespace
capital-Ink [] h = tt
capital-Ink (c ∷ s) (h, h') = (ground arith, capital-Ink s h')

spelled-Capital : (unit : SizeUnit) → Every IsCapital (spelled unit)
spelled-Capital unit_gib = ground arith
spelled-Capital unit_gb = ground arith
spelled-Capital unit_g = ground arith
spelled-Capital unit_mib = ground arith
spelled-Capital unit_mb = ground arith
spelled-Capital unit_m = ground arith
spelled-Capital unit_kib = ground arith
spelled-Capital unit_kb = ground arith
spelled-Capital unit_k = ground arith
spelled-Capital unit_bytes = ground arith
spelled-Capital unit_b = ground arith
spelled-Capital bare = ground arith

last-IsDigit :
    (radix a : ℕ) (s t : Text)
    → Every (IsDigit radix) s
    → IsDigit radix a
    → (d : ℕ) × (ds : Text) × (reverse_aux s (a ∷ t) ≡ d ∷ ds) × IsDigit radix d
last-IsDigit radix a [] t h k = (a, t, refl, k)
last-IsDigit radix a (c ∷ s) t (h, h') k = last-IsDigit radix c s (a ∷ t) h' h

decimal_size :
    (n : ℕ) (unit : SizeUnit)
    → unless_empty (decimal n ++ spelled unit) ≡ checked usize_max (n * bytes_in unit)
decimal_size n unit =
    let (c, s, e, (h, h')) = printed-IsDigit 10 n (omega arith) in
    let (d, ds, e', k) = last-IsDigit 10 c s [] h' h in
    let parsed = ap number (sym e) ∙ parse_decimal n in
    let whole =
      ap parse_u64 (sym e) ∙ from_str_radix-printed 10 n (omega arith) u64_max (omega arith) in
    ap (λ t. unless_empty (t ++ spelled unit)) e ∙ unit_size c d n s ds e' k parsed whole unit

-- A decimal number, a unit in upper or lower case, and blanks behind it are read as that many bytes,
-- and refused exactly where these do not fit in a `usize`.
pub parse_cache_value-decimal :
    (n : ℕ) (unit : SizeUnit) (u blank : Text)
    → to_ascii_uppercase u ≡ spelled unit
    → Every IsBlank blank
    → parse_cache_value ((decimal n ++ u) ++ blank) ≡ checked usize_max (n * bytes_in unit)
unfolding parse_cache_value
parse_cache_value-decimal n unit u blank e h =
    let ink = capital-Ink u (rw e (spelled-Capital unit)) in
    let line =
      trim-Ink (decimal n ++ u) blank (Every-append IsInk (decimal n) u (decimal-Ink n) ink) h in
    let upper =
      uppercase-append (decimal n) u
      ∙ ap (λ t. t ++ to_ascii_uppercase u) (uppercase-digits (decimal n) (decimal-IsDigit n))
      ∙ ap (λ t. decimal n ++ t) e in
    ap (λ t. unless_empty (to_ascii_uppercase t)) line ∙ ap unless_empty upper ∙ decimal_size n unit
