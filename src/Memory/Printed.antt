-- ===== src/Memory/Printed.antt =====
-- src/memory.rs: a file as the kernel prints `/proc/meminfo`, and how its lines are read.
use kernelkit.Common.{
  ℕ, zero, suc, ◌≡◌, ◌≢◌, refl, sym, ap, ◌∙◌, List, [], ◌∷◌, ◌++◌, inl, inr, arith, replicate,
}
use mathlib.Core.List.{reverse, reverse-reverse, reverse_aux, map}
use kernelkit.Text.{
  Text, codes, trim, trim_start, trim_end, keep, parse_u64, u64_max, checked, is_whitespace,
  is_ascii_digit,
}
use kernelkit.Text.Printed.{
  decimal, IsDigit, Every, printed-IsDigit, decimal-IsDigit, from_str_radix-printed,
}
use kernelkit.Text.Separated.{
  IsInk, IsBlank, Every-map, Every-append, Lacks, split_once-first, trim_start-Blank,
  trim_start-Ink,
}
use kernelkit.Memory.Meminfo.{
  parse_kib_value, lines, lines_from, strip_return, until_whitespace, leading_digits, token_value,
  first_token, value_behind,
}

-- The lines that are read.
pub data Field : Type 0 where
  total available free buffers cached : Field

abbrev pub name_of : Field → Text
name_of total = codes "MemTotal"
name_of available = codes "MemAvailable"
name_of free = codes "MemFree"
name_of buffers = codes "Buffers"
name_of cached = codes "Cached"

-- A line that is read, with `pad` spaces in front of its number, or another line.
pub data Entry : Type 0 where
  known : (field : Field) (pad kib : ℕ) → Entry
  other : (line : Text) → Entry

abbrev value_text : ℕ → ℕ → Text
value_text pad kib = replicate pad b' ' ++ (decimal kib ++ codes " kB")

abbrev pub shown : Entry → Text
shown (known field pad kib) = name_of field ++ b':' ∷ value_text pad kib
shown (other line) = line

-- The file: each line with a line feed behind it.
abbrev pub printed_file : List Entry → Text
printed_file [] = []
printed_file (e ∷ es) = shown e ++ 10 ∷ printed_file es

trim_end-kb : (s : Text) → trim_end (s ++ codes " kB") ≡ s ++ codes " kB"
unfolding trim_end is_whitespace
trim_end-kb [] = refl
trim_end-kb (c ∷ []) = refl
trim_end-kb (c ∷ d ∷ s) = ap (keep c) (trim_end-kb (d ∷ s))

spaces-Blank : (pad : ℕ) → Every IsBlank (replicate pad b' ')
unfolding is_whitespace
spaces-Blank zero = tt
spaces-Blank (suc pad) = (refl, spaces-Blank pad)

digit-Ink : (c : ℕ) → IsDigit 10 c → IsInk c
unfolding is_whitespace
digit-Ink c (inl h) = ground arith
digit-Ink c (inr h) = absurd (omega arith)

trim-value : (pad kib : ℕ) → trim (value_text pad kib) ≡ decimal kib ++ codes " kB"
trim-value pad kib =
    let (c, s, e, (h, h')) = printed-IsDigit 10 kib (omega arith) in
    ap trim_end
      (trim_start-Blank (replicate pad b' ') (decimal kib ++ codes " kB") (spaces-Blank pad))
    ∙ ap (λ t. trim_end (trim_start (t ++ codes " kB"))) e
    ∙ ap trim_end (trim_start-Ink c (s ++ codes " kB") (digit-Ink c h))
    ∙ ap (λ t. trim_end (t ++ codes " kB")) (sym e)
    ∙ trim_end-kb (decimal kib)

until_whitespace-Ink : (s : Text) → Every IsInk s → until_whitespace (s ++ codes " kB") ≡ s
unfolding until_whitespace is_whitespace
until_whitespace-Ink [] h = refl
until_whitespace-Ink (c ∷ s) (h, h') = ground (arith, until_whitespace-Ink s h')

leading_digits-Digits : (s : Text) → Every (IsDigit 10) s → leading_digits s ≡ s
unfolding leading_digits is_ascii_digit
leading_digits-Digits [] h = refl
leading_digits-Digits (c ∷ s) (inl h, h') = ground (arith, leading_digits-Digits s h')
leading_digits-Digits (c ∷ s) (inr h, h') = absurd (omega arith)

token : (kib : ℕ) → token_value (first_token (decimal kib ++ codes " kB")) ≡ checked u64_max kib
token kib =
    let (c, s, e, h) = printed-IsDigit 10 kib (omega arith) in
    ap (λ t. token_value (first_token (t ++ codes " kB"))) e
    ∙ ap (λ t. parse_u64 (leading_digits t))
        (until_whitespace-Ink (c ∷ s) (Every-map (c ∷ s) digit-Ink h))
    ∙ ap parse_u64 (leading_digits-Digits (c ∷ s) h)
    ∙ ap parse_u64 (sym e)
    ∙ from_str_radix-printed 10 kib (omega arith) u64_max (omega arith)

name-Lacks : (field : Field) → Lacks b':' (name_of field)
name-Lacks total = ground arith
name-Lacks available = ground arith
name-Lacks free = ground arith
name-Lacks buffers = ground arith
name-Lacks cached = ground arith

-- The number of KiB of a printed line is read, where it is a `u64`.
pub parse_kib_value-shown :
    (field : Field) (pad kib : ℕ)
    → parse_kib_value (shown (known field pad kib)) ≡ checked u64_max kib
unfolding parse_kib_value
parse_kib_value-shown field pad kib =
    ap value_behind (split_once-first b':' (name_of field) (value_text pad kib) (name-Lacks field))
    ∙ ap (λ t. token_value (first_token t)) (trim-value pad kib)
    ∙ token kib

-- A text without line feeds and carriage returns.
abbrev pub IsLine : Text → Type 0
IsLine = Every (λ c. (c ≢ 10) × (c ≢ 0xd))

strip_return-IsLine : (s : Text) → IsLine s → strip_return s ≡ s
unfolding strip_return
strip_return-IsLine [] h = refl
strip_return-IsLine (c ∷ []) h = ground arith
strip_return-IsLine (c ∷ d ∷ s) (h, h') = ap (λ t. c ∷ t) (strip_return-IsLine (d ∷ s) h')

lines_from-IsLine :
    (s line rest : Text)
    → IsLine s
    → lines_from line (s ++ 10 ∷ rest)
      ≡ strip_return (reverse (reverse_aux s line)) ∷ lines_from [] rest
unfolding lines_from
lines_from-IsLine [] line rest h = ground arith
lines_from-IsLine (c ∷ s) line rest (h, h') = ground (arith, lines_from-IsLine s (c ∷ line) rest h')

lines-first : (s rest : Text) → IsLine s → lines (s ++ 10 ∷ rest) ≡ s ∷ lines rest
lines-first s rest h =
    lines_from-IsLine s [] rest h
    ∙ ap (λ t. strip_return t ∷ lines rest) (reverse-reverse s)
    ∙ ap (λ t. t ∷ lines rest) (strip_return-IsLine s h)

abbrev pub AllLines : List Entry → Type 0
AllLines [] = Unit {0}
AllLines (known field pad kib ∷ es) = AllLines es
AllLines (other line ∷ es) = IsLine line × AllLines es

name-IsLine : (field : Field) → IsLine (name_of field)
name-IsLine total = ground arith
name-IsLine available = ground arith
name-IsLine free = ground arith
name-IsLine buffers = ground arith
name-IsLine cached = ground arith

digit-no_feed : (c : ℕ) → IsDigit 10 c → (c ≢ 10) × (c ≢ 0xd)
digit-no_feed c (inl h) = ground arith
digit-no_feed c (inr h) = absurd (omega arith)

spaces-IsLine : (pad : ℕ) → IsLine (replicate pad b' ')
spaces-IsLine zero = tt
spaces-IsLine (suc pad) = (ground arith, spaces-IsLine pad)

known-IsLine : (field : Field) (pad kib : ℕ) → IsLine (shown (known field pad kib))
known-IsLine field pad kib =
    Every-append _ (name_of field) (b':' ∷ value_text pad kib) (name-IsLine field) (
      ground arith,
      Every-append _ (replicate pad b' ') _ (spaces-IsLine pad) (
          Every-append _ (decimal kib) (codes " kB")
            (Every-map (decimal kib) digit-no_feed (decimal-IsDigit kib)) (ground arith)),
    )

-- The lines of the file are those that were printed.
pub lines-printed_file : (es : List Entry) → AllLines es → lines (printed_file es) ≡ map shown es
unfolding lines_from
lines-printed_file [] h = refl
lines-printed_file (known field pad kib ∷ es) h =
    lines-first (shown (known field pad kib)) (printed_file es) (known-IsLine field pad kib)
    ∙ ap (λ l. shown (known field pad kib) ∷ l) (lines-printed_file es h)
lines-printed_file (other line ∷ es) (h, h') =
    lines-first line (printed_file es) h ∙ ap (λ l. line ∷ l) (lines-printed_file es h')
