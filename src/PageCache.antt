-- ===== src/PageCache.antt =====
-- src/readahead.rs on Linux: readahead, eviction and the hint of sequential reads, by descriptor.
use kernelkit.Common.{ℕ, ◌-◌, ◌^◌, ℤ, String, is_zero, leb, if◌then◌else◌}
use kernelkit.Errors.{system, custom, invalid_input, text, errno}
use kernelkit.Machine.{dont_need, sequential_reads, Os, M, pure, fail, ◌>>=◌, call}
use kernelkit.Machine.Syscalls as Sys

abbrev pub i64_max : ℕ
i64_max = 2 ^ 63 - 1

-- `off_t::try_from(u64)`
abbrev try_offset : String → String → ℕ → M ℕ
try_offset operation message n =
    if leb n i64_max then pure n else fail (system operation (custom invalid_input (text message)))

-- `posix_fadvise` returns the error number itself.
abbrev advised : String → ℤ → M (Unit {0})
advised operation result =
    if is_zero result then pure tt else fail (system operation (errno result))

module _ (os : Os) where
  -- `readahead`
  unfoldable pub readahead : ℕ → ℕ → ℕ → M (Unit {0})
  readahead fd offset count = do
    off ← try_offset "readahead" "offset too large for off64_t" offset
    result ← call (Sys.readahead os fd off count)
    Sys.check os "readahead" result

  -- `evict_pages`
  unfoldable pub evict_pages : ℕ → ℕ → ℕ → M (Unit {0})
  evict_pages fd offset len = do
    off ← try_offset "posix_fadvise(DONTNEED)" "offset too large for off_t" offset
    length ← try_offset "posix_fadvise(DONTNEED)" "len too large for off_t" len
    result ← call (Sys.fadvise os fd off length dont_need)
    advised "posix_fadvise(DONTNEED)" result

  -- `advise_sequential`
  unfoldable pub advise_sequential : ℕ → M (Unit {0})
  advise_sequential fd =
      call (Sys.fadvise os fd 0 0 sequential_reads) >>= advised "posix_fadvise(SEQUENTIAL)"
