-- ===== src/Runs/Formats.antt =====
-- Headers and sections at concrete bytes.
use kernelkit.Common.{◌^◌, [], ◌∷◌, ◌++◌, ◌≡◌, ◌↔◌, ◌≤◌, ◌<◌, arith}
use kernelkit.Errors.{ok}
use kernelkit.Bytes.{Bytes, to_le_bytes}
use kernelkit.Lengths.{usize_max}
use kernelkit.Binformat.{FileHeader, vec_write, write_to, read_from, read_section}
use kernelkit.Binformat.Header.{read_from_iff, read_from-write_to}
use kernelkit.Binformat.Section.{read_section_iff}

abbrev magic : Bytes
magic = 75 ∷ 75 ∷ []

abbrev two_and_more : Bytes
two_and_more = 75 ∷ 75 ∷ 2 ∷ 0 ∷ 0 ∷ 0 ∷ 0 ∷ 0 ∷ 0 ∷ 0 ∷ 9 ∷ []

abbrev header : FileHeader
header = record { magic = magic; version = 2 }

read_from_iff_example :
    (read_from two_and_more magic 3 ≡ ok (2, 9 ∷ []))
    ↔ ((two_and_more ≡ magic ++ (to_le_bytes 2 ++ (9 ∷ []))) × (2 ≤ 3) × (2 < 2 ^ 64))
read_from_iff_example = read_from_iff two_and_more magic 3 2 (9 ∷ []) (omega arith)

read_from-write_to_example :
    read_from ((write_to vec_write header []).0 ++ (9 ∷ [])) magic 3 ≡ ok (2, 9 ∷ [])
read_from-write_to_example = read_from-write_to header 3 (9 ∷ []) (omega arith) (omega arith)

abbrev section : Bytes
section = 2 ∷ 0 ∷ 0 ∷ 0 ∷ 0 ∷ 0 ∷ 0 ∷ 0 ∷ 5 ∷ 6 ∷ 7 ∷ []

read_section_iff_example :
    (read_section usize_max section ≡ ok (5 ∷ 6 ∷ [], 7 ∷ []))
    ↔ ((section ≡ to_le_bytes 2 ++ (5 ∷ 6 ∷ 7 ∷ [])) × (2 < 2 ^ 64) × (2 ≤ usize_max))
read_section_iff_example = read_section_iff usize_max section (5 ∷ 6 ∷ []) (7 ∷ []) (omega arith)
