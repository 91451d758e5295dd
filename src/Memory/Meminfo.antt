-- ===== src/Memory/Meminfo.antt =====
-- src/memory.rs: lines, the value of a line, and the loop that reads the counters of
-- `/proc/meminfo`.
use kernelkit.Common.{
  ℕ, Bool, true, false, ◌&&◌, List, [], ◌∷◌, Option, none, some, ◌==◌, if◌then◌else◌,
}
use mathlib.Core.List.{reverse}
use kernelkit.Text.{
  Text, codes, is_whitespace, is_ascii_digit, trim, split_once, starts_with, parse_u64,
}

-- A line without the carriage return in front of its line feed.
unfoldable pub strip_return : Text → Text
strip_return [] = []
strip_return (c ∷ []) = if c == 0xd then [] else c ∷ []
strip_return (c ∷ d ∷ s) = c ∷ strip_return (d ∷ s)

-- `str::lines`, with the part of the current line that is read, in reverse. The text behind the last
-- line feed is a line if it is not empty, and keeps a carriage return.
abbrev pub last_line : Text → List Text
last_line [] = []
last_line (c ∷ s) = reverse (c ∷ s) ∷ []

unfoldable pub lines_from : Text → Text → List Text
unfolding strip_return
lines_from line [] = last_line line
lines_from line (c ∷ s) =
    let ended = strip_return (reverse line) ∷ lines_from [] s in
    let more = lines_from (c ∷ line) s in if c == 0xa then ended else more

abbrev pub lines : Text → List Text
lines = lines_from []

-- `split_whitespace().next()` on a trimmed text: what stands before the first white space.
unfoldable pub until_whitespace : Text → Text
until_whitespace [] = []
until_whitespace (c ∷ s) = let rest = until_whitespace s in if is_whitespace c then [] else c ∷ rest

abbrev pub first_token : Text → Option Text
first_token [] = none
first_token (c ∷ s) = some (until_whitespace (c ∷ s))

-- `chars().take_while(|c| c.is_ascii_digit())`
unfoldable pub leading_digits : Text → Text
leading_digits [] = []
leading_digits (c ∷ s) = let rest = leading_digits s in if is_ascii_digit c then c ∷ rest else []

abbrev pub token_value : Option Text → Option ℕ
token_value none = none
token_value (some token) = parse_u64 (leading_digits token)

abbrev pub value_behind : Option (Text × Text) → Option ℕ
value_behind none = none
value_behind (some (_, rest)) = token_value (first_token (trim rest))

-- `MemoryStatus::parse_kib_value`
unfoldable pub parse_kib_value : Text → Option ℕ
unfolding until_whitespace leading_digits
parse_kib_value line = value_behind (split_once b':' line)

-- The five counters of `read_from_meminfo`.
pub record Counters : Type 0 where
  pub mem_total_kib : Option ℕ
  pub mem_available_kib : Option ℕ
  pub mem_free_kib : Option ℕ
  pub buffers_kib : Option ℕ
  pub cached_kib : Option ℕ

abbrev pub no_counters : Counters
no_counters = record {
  mem_total_kib = none;
  mem_available_kib = none;
  mem_free_kib = none;
  buffers_kib = none;
  cached_kib = none;
}

abbrev pub is_some : Option ℕ → Bool
is_some none = false
is_some (some n) = true

-- Whether the loop breaks behind a `MemTotal` or `MemAvailable` line.
abbrev pub complete : Counters → Bool
complete c = is_some c.mem_total_kib && is_some c.mem_available_kib

-- The loop of `read_from_meminfo`.
unfoldable pub read_lines : List Text → Counters → Counters
unfolding parse_kib_value
read_lines [] c = c
read_lines (line ∷ rest) c =
    let value = parse_kib_value line in
    if starts_with line (codes "MemTotal:")
    then (let c' = record c { mem_total_kib = value } in
        let more = read_lines rest c' in if complete c' then c' else more)
    else if starts_with line (codes "MemAvailable:")
    then (let c' = record c { mem_available_kib = value } in
        let more = read_lines rest c' in if complete c' then c' else more)
    else if starts_with line (codes "MemFree:")
    then read_lines rest (record c { mem_free_kib = value })
    else if starts_with line (codes "Buffers:")
    then read_lines rest (record c { buffers_kib = value })
    else if starts_with line (codes "Cached:")
    then read_lines rest (record c { cached_kib = value })
    else read_lines rest c
