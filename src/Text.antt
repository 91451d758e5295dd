-- ===== src/Text.antt =====
-- The parts of `str` that the source calls. A `str` is the list of its code points. The children hold
-- the texts that the system prints, against these parts.
pub mod Printed
pub mod Separated
use kernelkit.Common.{
  ℕ, ◌+◌, ◌-◌, ◌*◌, ◌^◌, String, Bool, true, false, ◌&&◌, ◌||◌, List, [], ◌∷◌, Option, none, some,
  ltb, leb, ◌==◌, if◌then◌else◌,
}
use Prim.Native.Char.{code}
use mathlib.Core.List.{reverse, map}
use mathlib.Core.Option as Options

abbrev pub Text : Type 0
Text = List ℕ

-- A literal of the source.
abbrev pub codes : String → Text
codes String.[] = []
codes (String.◌∷◌ c s) = code c ∷ codes s

-- `char::is_whitespace`: the Unicode property White_Space.
unfoldable pub is_whitespace : ℕ → Bool
is_whitespace c =
    (leb 0x9 c && leb c 0xd)
    || c == 0x20
    || c == 0x85
    || c == 0xa0
    || c == 0x1680
    || (leb 0x2000 c && leb c 0x200a)
    || c == 0x2028
    || c == 0x2029
    || c == 0x202f
    || c == 0x205f
    || c == 0x3000

-- `char::is_ascii_digit`
unfoldable pub is_ascii_digit : ℕ → Bool
is_ascii_digit c = leb b'0' c && leb c b'9'

unfoldable pub trim_start : Text → Text
trim_start [] = []
trim_start (c ∷ s) = let rest = trim_start s in if is_whitespace c then rest else c ∷ s

-- `c` in front of a text whose end is trimmed.
abbrev pub keep : ℕ → Text → Text
keep c [] = if is_whitespace c then [] else c ∷ []
keep c (d ∷ s) = c ∷ d ∷ s

unfoldable pub trim_end : Text → Text
trim_end [] = []
trim_end (c ∷ s) = keep c (trim_end s)

-- `str::trim`
abbrev pub trim : Text → Text
trim s = trim_end (trim_start s)

abbrev pub push_front : ℕ → List Text → List Text
push_front c [] = (c ∷ []) ∷ []
push_front c (part ∷ parts) = (c ∷ part) ∷ parts

-- `str::split(char)`: one part more than there are separators.
unfoldable pub split : ℕ → Text → List Text
split sep [] = [] ∷ []
split sep (c ∷ s) = let rest = split sep s in if c == sep then [] ∷ rest else push_front c rest

-- `str::split_once(char)`
unfoldable pub split_once : ℕ → Text → Option (Text × Text)
split_once sep [] = none
split_once sep (c ∷ s) =
    let rest = Options.map (λ (before, after). (c ∷ before, after)) (split_once sep s) in
    if c == sep then some ([], s) else rest

-- `str::strip_prefix`
unfoldable pub strip_prefix : Text → Text → Option Text
strip_prefix [] s = some s
strip_prefix (p ∷ ps) [] = none
strip_prefix (p ∷ ps) (c ∷ s) = let rest = strip_prefix ps s in if c == p then rest else none

-- `str::strip_suffix`
unfoldable pub strip_suffix : Text → Text → Option Text
unfolding strip_prefix
strip_suffix suffix s = Options.map reverse (strip_prefix (reverse suffix) (reverse s))

-- `str::starts_with`
unfoldable pub starts_with : Text → Text → Bool
unfolding strip_prefix
starts_with s prefix = elim (strip_prefix prefix s) [ none ↦ false | some _ ↦ true ]

-- `str::to_ascii_uppercase`, `str::to_ascii_lowercase`
unfoldable pub to_ascii_uppercase : Text → Text
to_ascii_uppercase = map (λ c. if leb b'a' c && leb c b'z' then c - 32 else c)

unfoldable pub to_ascii_lowercase : Text → Text
to_ascii_lowercase = map (λ c. if leb b'A' c && leb c b'Z' then c + 32 else c)

-- `char::to_digit`, for a radix of at most 36.
unfoldable pub to_digit : ℕ → ℕ → Option ℕ
to_digit radix c =
    let below = λ (d : ℕ). if ltb d radix then some d else none in
    if leb b'0' c && leb c b'9'
    then below (c - b'0')
    else if leb b'a' c && leb c b'z'
    then below (c - b'a' + 10)
    else if leb b'A' c && leb c b'Z'
    then below (c - b'A' + 10)
    else none

-- `checked_mul` and `checked_add`, below a largest value.
abbrev pub checked : ℕ → ℕ → Option ℕ
checked most n = if leb n most then some n else none

-- The digits of a number, read behind `n`; overflow is an error.
unfoldable pub parse_digits : ℕ → ℕ → Text → ℕ → Option ℕ
unfolding to_digit
parse_digits radix most [] n = some n
parse_digits radix most (c ∷ s) n = elim (to_digit radix c) [
  | none ↦ none
  | some d ↦ if leb (n * radix + d) most then parse_digits radix most s (n * radix + d) else none
]

abbrev pub strip_plus : Text → Text
strip_plus [] = []
strip_plus (c ∷ s) = if c == b'+' then s else c ∷ s

abbrev pub parse_some : ℕ → ℕ → Text → Option ℕ
parse_some radix most [] = none
parse_some radix most (c ∷ s) = parse_digits radix most (c ∷ s) 0

-- `from_str_radix` of an unsigned type whose largest value is `most`: one leading plus is taken,
-- and at least one digit must follow.
unfoldable pub from_str_radix : ℕ → ℕ → Text → Option ℕ
unfolding parse_digits
from_str_radix radix most s = parse_some radix most (strip_plus s)

abbrev pub u64_max : ℕ
u64_max = 2 ^ 64 - 1

-- `str::parse::<u64>` and, on a platform of 64 bits, `str::parse::<usize>`.
abbrev pub parse_u64 : Text → Option ℕ
parse_u64 = from_str_radix 10 u64_max
