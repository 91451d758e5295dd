-- ===== src/Binformat.antt =====
-- src/binformat.rs: the file header and the length-prefixed section. The sink of `write_to` is an
-- interface; `Vec<u8>` is one. Contexts are the source's strings.
pub mod Header
pub mod Section
use kernelkit.Common.{
  ℕ, ◌+◌, Bool, true, false, not, List, [], ◌∷◌, ◌++◌, ltb, leb, length, if◌then◌else◌,
}
use kernelkit.Errors.{
  Error, Result, ok, err, ◌>>=◌, Io, done, failed, unexpected_eof, invalid_magic,
  unsupported_version, section_too_large,
}
use kernelkit.Bytes.{Bytes, split_at, bytes_eq, to_le_bytes, from_le_bytes, to_array_8}

-- `U64_WIDTH`
abbrev pub u64_width : ℕ
u64_width = 8

-- `FileHeader`
pub record FileHeader : Type 0 where
  pub magic : Bytes
  pub version : ℕ

-- `std::io::Write`, the one method that the source calls: it takes the sink's state to a new one.
pub record Write : Type 1 where
  pub Sink : Type 0
  pub write_all : Sink → Bytes → Sink × Io (Unit {0})

-- `impl Write for Vec<u8>`
abbrev pub vec_write : Write
vec_write = record { Sink = Bytes; write_all = λ out bytes. (out ++ bytes, done tt) }

-- `FileHeader::write_to`
module _ (W : Write) where
  abbrev and_then :
      W.Sink × Io (Unit {0}) → (W.Sink → W.Sink × Io (Unit {0})) → W.Sink × Io (Unit {0})
  and_then (s, done _) k = k s
  and_then (s, failed e) k = (s, failed e)

  unfoldable pub write_to : FileHeader → W.Sink → W.Sink × Io (Unit {0})
  write_to h w = and_then (W.write_all w h.magic) λ w'. W.write_all w' (to_le_bytes h.version)

-- The part of `FileHeader::read_from` behind the magic.
unfoldable pub read_version : Bytes → ℕ → Result (ℕ × Bytes)
read_version after_magic max_version =
    if ltb (length after_magic) u64_width
    then err (unexpected_eof "file header version" u64_width (length after_magic))
    else do
      (version_bytes, rest) ← split_at u64_width after_magic
      let version = from_le_bytes (to_array_8 version_bytes)
      if ltb max_version version
          then err (unsupported_version version max_version)
          else ok (version, rest)

-- `FileHeader::read_from`
unfoldable pub read_from : Bytes → Bytes → ℕ → Result (ℕ × Bytes)
read_from bytes expected_magic max_version =
    if ltb (length bytes) (length expected_magic)
    then err (unexpected_eof "file header magic" (length expected_magic) (length bytes))
    else do
      (actual_magic, after_magic) ← split_at (length expected_magic) bytes
      if bytes_eq actual_magic expected_magic
          then read_version after_magic max_version
          else err invalid_magic

-- `usize::try_from(u64)`, on a platform whose largest `usize` is `usize_max`.
abbrev try_usize : ℕ → ℕ → Result ℕ
try_usize usize_max n = if leb n usize_max then ok n else err (section_too_large n)

-- `read_section`
unfoldable pub read_section : ℕ → Bytes → Result (Bytes × Bytes)
read_section usize_max bytes =
    if ltb (length bytes) u64_width
    then err (unexpected_eof "section length" u64_width (length bytes))
    else do
      (length_bytes, after_length) ← split_at u64_width bytes
      let declared_len = from_le_bytes (to_array_8 length_bytes)
      payload_len ← try_usize usize_max declared_len
      if ltb (length after_length) payload_len
          then err (unexpected_eof "section payload" payload_len (length after_length))
          else split_at payload_len after_length
