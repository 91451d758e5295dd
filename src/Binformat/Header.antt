-- ===== src/Binformat/Header.antt =====
-- `FileHeader`: what `write_to` writes, and what `read_from` accepts.
use kernelkit.Common.{
  ℕ, ◌+◌, ◌^◌, ◌≤◌, ◌<◌, ◌≡◌, refl, ap, ◌∙◌, ◌≢◌, ◌↔◌, ◌++◌, append_assoc, arith, length,
  length-append, ltb, if◌then◌else◌, Bool-cases, inl, inr, [], ◌∷◌, ◌-◌, All, All-append_left,
  All-append_right,
}
use kernelkit.Errors.{ok, err, panicked, done, unexpected_eof}
use kernelkit.Bytes.{Bytes, IsByte, to_le_bytes}
use kernelkit.Bytes.Laws
use kernelkit.Bytes.Laws.{split_at_cases, short, parts}
use kernelkit.Binformat.{FileHeader, vec_write, write_to, read_version, read_from}

-- The version, eight bytes lowest first, is read back where it is not too new.
read_version-to_le_bytes :
    (v max_version : ℕ) (rest : Bytes)
    → v < 2 ^ 64
    → v ≤ max_version
    → read_version (to_le_bytes v ++ rest) max_version ≡ ok (v, rest)
unfolding read_version
read_version-to_le_bytes v m rest hv hm = ground (
  arith,
  length-append (to_le_bytes v) rest,
  Laws.length-le_bytes 8 v,
  Laws.split_at-append_of_length 8 (to_le_bytes v) rest (Laws.length-le_bytes 8 v),
  Laws.to_array_8_of_length (to_le_bytes v) (Laws.length-le_bytes 8 v),
  Laws.from_le_bytes-le_bytes 8 v hv,
)

pub read_from-encoding :
    (magic : Bytes) (v max_version : ℕ) (rest : Bytes)
    → v < 2 ^ 64
    → v ≤ max_version
    → read_from (magic ++ (to_le_bytes v ++ rest)) magic max_version ≡ ok (v, rest)
unfolding read_from
read_from-encoding magic v m rest hv hm = ground (
  arith,
  length-append magic (to_le_bytes v ++ rest),
  Laws.split_at-append magic (to_le_bytes v ++ rest),
  Laws.bytes_eq_refl magic,
  read_version-to_le_bytes v m rest hv hm,
)

write_to-vec :
    (h : FileHeader) (out : Bytes)
    → write_to vec_write h out ≡ ((out ++ h.magic) ++ to_le_bytes h.version, done tt)
unfolding write_to
write_to-vec h out = refl

-- A header written to a `Vec<u8>` and followed by any bytes is read back, with its version and
-- those bytes, by a reader that expects the same magic and knows the version.
pub read_from-write_to :
    (h : FileHeader) (max_version : ℕ) (rest : Bytes)
    → h.version < 2 ^ 64
    → h.version ≤ max_version
    → read_from ((write_to vec_write h []).0 ++ rest) h.magic max_version ≡ ok (h.version, rest)
read_from-write_to h m rest hv hm =
    rw (write_to-vec, append_assoc) (read_from-encoding h.magic h.version m rest hv hm)

-- An accepted version is the word that the eight bytes spell, and it is not too new.
read_version_sound :
    (after_magic : Bytes) (max_version : ℕ) {v : ℕ} {rest : Bytes}
    → All IsByte after_magic
    → read_version after_magic max_version ≡ ok (v, rest)
    → (after_magic ≡ to_le_bytes v ++ rest) × (v ≤ max_version) × (v < 2 ^ 64)
unfolding read_version
read_version_sound bs m {v} {rest} hb h = elim (split_at_cases 8 bs) [
  | short lt ↦ ground arith
  | parts w r e whole eight _ ↦
      let (spells, fits) =
        Laws.word_of_array_8 w (All-append_left IsByte w r (rw whole at hb)) eight in
      ground (arith, spells, fits)
]

read_from_sound :
    (bytes magic : Bytes) (max_version : ℕ) {v : ℕ} {rest : Bytes}
    → All IsByte bytes
    → read_from bytes magic max_version ≡ ok (v, rest)
    → (bytes ≡ magic ++ (to_le_bytes v ++ rest)) × (v ≤ max_version) × (v < 2 ^ 64)
unfolding read_from
read_from_sound bytes magic m {v} {rest} hb h = elim (split_at_cases (length magic) bytes) [
  | short lt ↦ ground arith
  | parts front r e whole same_length _ ↦ ground (
    arith,
    Laws.eq_of_bytes_eq front magic,
    read_version_sound r m {v = v} {rest = rest} (All-append_right IsByte front r (rw whole at hb)),
  )
]

-- A reader accepts exactly the bytes that begin with its magic and the eight bytes of a version
-- that it knows; it returns that version and the bytes behind.
pub read_from_iff :
    (bytes magic : Bytes) (max_version v : ℕ) (rest : Bytes)
    → All IsByte bytes
    → (read_from bytes magic max_version ≡ ok (v, rest))
      ↔ ((bytes ≡ magic ++ (to_le_bytes v ++ rest)) × (v ≤ max_version) × (v < 2 ^ 64))
read_from_iff bytes magic m v rest hb = (
  read_from_sound bytes magic m hb,
  λ (e, known, fits). rw e (read_from-encoding magic v m rest fits known),
)

length_left :
    (xs ys zs ws : Bytes) → xs ++ ys ≡ zs ++ ws → length xs + length ys ≡ length zs + length ws
length_left xs ys zs ws e =
    omega (arith, ap (λ (l : Bytes). length l) e, length-append xs ys, length-append zs ws)

-- The first parts of two equal concatenations, where the one is no longer than the other.
front_of_append :
    (xs ys zs ws : Bytes)
    → xs ++ ys ≡ zs ++ ws
    → length xs ≤ length zs
    → (r : Bytes) × (zs ≡ xs ++ r)
front_of_append [] ys zs ws e h = (zs, refl)
front_of_append (x ∷ xs) ys [] ws e h = absurd (omega arith)
front_of_append (x ∷ xs) ys (z ∷ zs) ws e h =
    let (r, same) = front_of_append xs ys zs ws (cc) (omega arith) in (r, cc)

-- A file that ends inside the header is refused, with the part that is cut, the bytes which that
-- part needs and the bytes which are left of it.
pub read_from_truncated :
    (magic : Bytes) (v max_version x : ℕ) (front back : Bytes)
    → magic ++ to_le_bytes v ≡ front ++ (x ∷ back)
    → read_from front magic max_version ≡ (
        if ltb (length front) (length magic)
        then err (unexpected_eof "file header magic" (length magic) (length front))
        else err (unexpected_eof "file header version" 8 (length front - length magic)))
unfolding read_from read_version
read_from_truncated magic v m x front back e =
    elim (Bool-cases (ltb (length front) (length magic))) [
      | inl short_magic ↦ ground arith
      | inr long ↦ inside (ground arith) ∙ rw long refl
    ]
  where
    inside :
        length magic ≤ length front
        → read_from front magic m
          ≡ err (unexpected_eof "file header version" 8 (length front - length magic))
    inside h =
        let cut = front_of_append magic (to_le_bytes v) front (x ∷ back) e h in
        rw cut.1 (
          ground (
            arith,
            cut.1,
            Laws.split_at-append magic cut.0,
            Laws.bytes_eq_refl magic,
            length-append magic cut.0,
            Laws.length-le_bytes 8 v,
            length_left magic (to_le_bytes v) front (x ∷ back) e,
          ))

-- No input makes the reader panic: both splits are within bounds.
pub read_from-ne-panicked :
    (bytes magic : Bytes) (max_version : ℕ) → read_from bytes magic max_version ≢ panicked
unfolding read_from read_version
read_from-ne-panicked bytes magic m h = elim (split_at_cases (length magic) bytes) [
  | short lt ↦ ground arith
  | parts front r e _ _ _ ↦ elim (split_at_cases 8 r) [
    | short lt ↦ ground arith
    | parts w r' e' _ _ _ ↦ ground arith
  ]
]
