-- ===== src/Mmap/File.antt =====
-- src/mmap.rs: read-only maps of files with advice, and the check of the file's identity behind the
-- map. The file is closed at the end of each function, and a map that is not returned is dropped.
use kernelkit.Common.{ℕ, String, false, not, ◌==◌, leb, if◌then◌else◌}
use kernelkit.Errors.{Error, system, custom, other, invalid_data, text, number, joined}
use kernelkit.Text.{u64_max}
use kernelkit.Machine.{
  FilePath, Mapping, Advice, huge_page, Os, State, M, pure, fail, ◌>>=◌, ◌>>◌, call, defer,
  on_failure,
}
use kernelkit.Machine.Syscalls as Sys
use kernelkit.FileIdentity.{io, from_metadata, validate_file_identity}

-- `MmapAdvice`
pub data MmapAdvice : Type 0 where
  sequential random will_need : MmapAdvice

abbrev madvise_flag : MmapAdvice → Advice
madvise_flag MmapAdvice.sequential = Advice.sequential
madvise_flag MmapAdvice.random = Advice.random
madvise_flag MmapAdvice.will_need = Advice.will_need

abbrev operation : MmapAdvice → String
operation MmapAdvice.sequential = "madvise(SEQUENTIAL)"
operation MmapAdvice.random = "madvise(RANDOM)"
operation MmapAdvice.will_need = "madvise(WILLNEED)"

abbrev size_mismatch : ℕ → ℕ → Error
size_mismatch expected_size found = system "open_read_with_size" (
    custom invalid_data (
      joined (joined (text "file size mismatch: expected ") (number expected_size))
        (joined (text " bytes, found ") (joined (number found) (text " bytes")))))

-- `u64::try_from(mmap.len())`
abbrev try_u64 : ℕ → M ℕ
try_u64 len =
    if leb len u64_max
    then pure len
    else fail
        (system "open_with_advice" (custom other (text "mapped region length does not fit in u64")))

module _ (os : Os) where
  -- The advice on a map that is not empty; huge pages are a hint whose refusal is ignored.
  unfoldable pub advise : Mapping → MmapAdvice → M (Unit {0})
  advise mmap advice = if mmap.len == 0 then pure tt else do
    result ← call (Sys.madvise os mmap.ptr mmap.len (madvise_flag advice))
    Sys.check os (operation advice) result
    _ ← call (Sys.madvise os mmap.ptr mmap.len huge_page)
    pure tt

  -- `open_with_advice`
  unfoldable pub open_with_advice : FilePath → MmapAdvice → M Mapping
  unfolding from_metadata validate_file_identity advise
  open_with_advice path advice = do
    file ← io "open" (Sys.open_file os path)
    defer (Sys.close_file os file) do
      metadata ← io "metadata" (Sys.fstat os file)
      let expected_identity = from_metadata metadata
      mmap ← io "mmap" (Sys.map_file os file false)
      on_failure (Sys.drop_mapping os mmap) do
        mmap_len ← try_u64 mmap.len
        validate_file_identity os file expected_identity mmap_len "mapped file changed during open"
        advise mmap advice
        pure mmap

  -- `open_read`
  unfoldable pub open_read : FilePath → M Mapping
  unfolding open_with_advice
  open_read path = open_with_advice path MmapAdvice.sequential

  -- `open_read_with_size`
  unfoldable pub open_read_with_size : FilePath → ℕ → M Mapping
  unfolding from_metadata validate_file_identity advise
  open_read_with_size path expected_size = do
    file ← io "open" (Sys.open_file os path)
    defer (Sys.close_file os file) do
      metadata ← io "metadata" (Sys.fstat os file)
      let expected_identity = from_metadata metadata
      if not (metadata.len == expected_size)
          then fail (size_mismatch expected_size metadata.len)
          else do
            mmap ← io "mmap" (Sys.map_file os file false)
            on_failure (Sys.drop_mapping os mmap) do
              validate_file_identity os file expected_identity expected_size
                  "mapped file changed during open"
              advise mmap MmapAdvice.sequential
              pure mmap

  -- `release`
  unfoldable pub release : Mapping → State → State
  release mmap s = Sys.drop_mapping os mmap s
