-- ===== src/Binformat/Section.antt =====
-- `read_section`: the length-prefixed section.
use kernelkit.Common.{
  ℕ, ◌^◌, ◌≤◌, ◌<◌, ◌≡◌, ◌≢◌, ◌↔◌, ◌++◌, arith, length, length-append, All, All-append_left,
}
use kernelkit.Errors.{ok, panicked}
use kernelkit.Bytes.{Bytes, IsByte, to_le_bytes, from_le_bytes, to_array_8}
use kernelkit.Bytes.Laws
use kernelkit.Bytes.Laws.{split_at_cases, short, parts}
use kernelkit.Binformat.{read_section}

module _ (usize_max : ℕ) where
  -- A length word, its payload and any bytes behind are read back.
  pub read_section-encoding :
      (payload rest : Bytes)
      → length payload < 2 ^ 64
      → length payload ≤ usize_max
      → read_section usize_max (to_le_bytes (length payload) ++ (payload ++ rest))
        ≡ ok (payload, rest)
  unfolding read_section
  read_section-encoding payload rest h fits = ground (
    arith,
    length-append (to_le_bytes (length payload)) (payload ++ rest),
    length-append payload rest,
    Laws.length-le_bytes 8 (length payload),
    Laws.split_at-append_of_length 8 (to_le_bytes (length payload)) (payload ++ rest)
        (Laws.length-le_bytes 8 (length payload)),
    Laws.to_array_8_of_length (to_le_bytes (length payload))
        (Laws.length-le_bytes 8 (length payload)),
    Laws.from_le_bytes-le_bytes 8 (length payload) h,
    Laws.split_at-append payload rest,
  )

  read_section_sound :
      (bytes : Bytes) {payload rest : Bytes}
      → All IsByte bytes
      → read_section usize_max bytes ≡ ok (payload, rest)
      → (bytes ≡ to_le_bytes (length payload) ++ (payload ++ rest))
        × (length payload < 2 ^ 64)
        × (length payload ≤ usize_max)
  unfolding read_section
  read_section_sound bytes {payload} {rest} hb h = elim (split_at_cases 8 bytes) [
    | short lt ↦ ground arith
    | parts w r e whole eight _ ↦
        let (spells, fits) =
          Laws.word_of_array_8 w (All-append_left IsByte w r (rw whole at hb)) eight in
        let n = from_le_bytes (to_array_8 w) in
        ground (arith, spells, fits, Laws.split_at-eq-ok n r {ys = payload} {zs = rest})
  ]

  -- A section is accepted exactly where the bytes are the eight bytes of the payload's length,
  -- the payload and the rest, and the length is one that the platform can address.
  pub read_section_iff :
      (bytes payload rest : Bytes)
      → All IsByte bytes
      → (read_section usize_max bytes ≡ ok (payload, rest)) ↔ (
          (bytes ≡ to_le_bytes (length payload) ++ (payload ++ rest))
          × (length payload < 2 ^ 64)
          × (length payload ≤ usize_max))
  read_section_iff bytes payload rest hb = (
    read_section_sound bytes hb,
    λ (e, word, fits). rw e (read_section-encoding payload rest word fits),
  )

  -- No input makes the reader panic: both splits are within bounds.
  pub read_section-ne-panicked : (bytes : Bytes) → read_section usize_max bytes ≢ panicked
  unfolding read_section
  read_section-ne-panicked bytes h = elim (split_at_cases 8 bytes) [
    | short lt ↦ ground arith
    | parts w r e _ _ _ ↦ elim (split_at_cases (from_le_bytes (to_array_8 w)) r) [
      | short lt ↦ ground arith
      | parts _ _ e' _ _ _ ↦ ground arith
    ]
  ]
