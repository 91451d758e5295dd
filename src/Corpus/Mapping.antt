-- ===== src/Corpus/Mapping.antt =====
-- src/corpus.rs: `MmapCorpus::open_with_limits`, which maps the files of a directory one by one. The
-- regions of a run that fails are dropped in the order in which they were mapped.
use kernelkit.Common.{ℕ, ◌+◌, ◌*◌, min, true, List, [], ◌∷◌, ◌++◌, ltb, ◌==◌, if◌then◌else◌}
use mathlib.Core.List.{map}
use kernelkit.Errors.{
  Error, ok, err, system, custom, other, invalid_data, text, number, code_points, shown, joined,
}
use kernelkit.Text.{u64_max}
use kernelkit.Machine.{
  FilePath, Mapping, sequential, huge_page, Os, State, M, pure, fail, lift, ◌>>=◌, ◌>>◌, call,
  defer, on_failure,
}
use kernelkit.Machine.Syscalls as Sys
use kernelkit.Common.{is_zero, ℤ}
use kernelkit.FileIdentity.{io, FileIdentity, from_metadata, validate_file_identity}
use kernelkit.Corpus.Walk.{Listing, collect_files, display}
use kernelkit.Corpus.Order.{sort}

-- `MmapRegion`
pub record MmapRegion : Type 0 where
  pub mmap : Mapping
  pub path : FilePath
  pub size : ℕ

-- `MmapCorpus`
pub record MmapCorpus : Type 0 where
  pub base : FilePath
  pub mappings : List MmapRegion

-- `MmapRegion::path`, `size` and `as_slice`
unfoldable pub path : MmapRegion → FilePath
path region = region.path

unfoldable pub size : MmapRegion → ℕ
size region = region.size

unfoldable pub as_slice : MmapRegion → Mapping
as_slice region = region.mmap

-- `MmapCorpus::iter`
unfoldable pub iter : MmapCorpus → List (FilePath × Mapping)
iter corpus = map (λ region. (region.path, region.mmap)) corpus.mappings

abbrev pub file_too_large : ℕ → ℕ → Error
file_too_large size max_file_bytes = system "open_with_limits" (
    custom invalid_data (
      joined (joined (text "file size ") (number size))
        (joined (text " exceeds limit of ") (number max_file_bytes))))

abbrev pub corpus_too_large : ℕ → Error
corpus_too_large max_total_bytes = system "open_with_limits" (
    custom invalid_data
      (joined (text "total corpus size exceeds limit of ") (number max_total_bytes)))

module _ (os : Os) where
  abbrev advised : FilePath → ℤ → M (Unit {0})
  advised path result s = if is_zero result then (ok tt, s) else (
    err (
        system "madvise(SEQUENTIAL)" (
          custom other (
            joined (joined (shown (os.last_error s.calls)) (text " (path: "))
              (joined (code_points (display path)) (text ")"))))),
    s,
  )

  -- `advise_sequential`
  unfoldable pub advise_sequential : Mapping → FilePath → M (Unit {0})
  advise_sequential mmap path = if mmap.len == 0 then pure tt else do
    sequential_result ← call (Sys.madvise os mmap.ptr mmap.len sequential)
    advised path sequential_result
    _ ← call (Sys.madvise os mmap.ptr mmap.len huge_page)
    pure tt

  -- `validate_mapping_stability`
  unfoldable pub validate_mapping_stability : ℕ → FileIdentity → ℕ → M (Unit {0})
  unfolding validate_file_identity
  validate_mapping_stability file expected expected_len =
      validate_file_identity os file expected expected_len
        "corpus file changed during mapping; Fix: run corpus mapping on immutable input"

  -- One turn of the loop: the region, and the bytes mapped so far (`saturating_add`).
  unfoldable pub map_one : ℕ → ℕ → FilePath → ℕ → M (MmapRegion × ℕ)
  unfolding from_metadata validate_mapping_stability advise_sequential
  map_one max_file_bytes max_total_bytes path total_bytes = do
    file ← io "open" (Sys.open_file os path)
    defer (Sys.close_file os file) do
      metadata ← io "metadata" (Sys.fstat os file)
      let expected_identity = from_metadata metadata
      let total = min (total_bytes + metadata.len) u64_max
      if ltb max_file_bytes metadata.len
          then fail (file_too_large metadata.len max_file_bytes)
          else if ltb max_total_bytes total
          then fail (corpus_too_large max_total_bytes)
          else do
            mmap ← io "mmap" (Sys.map_file os file true)
            on_failure (Sys.drop_mapping os mmap) do
              validate_mapping_stability file expected_identity metadata.len
              advise_sequential mmap path
              pure (record { mmap = mmap; path = path; size = metadata.len }, total)

  -- The drop of `mappings`
  unfoldable pub drop_regions : List MmapRegion → State → State
  drop_regions [] s = s
  drop_regions (region ∷ regions) s = drop_regions regions (Sys.drop_mapping os region.mmap s)

  -- The drop of a `MmapCorpus`
  unfoldable pub drop_corpus : MmapCorpus → State → State
  unfolding drop_regions
  drop_corpus corpus s = drop_regions corpus.mappings s

  -- The loop over `file_paths`
  unfoldable pub map_files : ℕ → ℕ → List FilePath → ℕ → List MmapRegion → M (List MmapRegion)
  map_files max_file_bytes max_total_bytes [] total_bytes mappings = pure mappings
  map_files max_file_bytes max_total_bytes (path ∷ paths) total_bytes mappings = do
    (region, total) ←
        on_failure (drop_regions mappings) (map_one max_file_bytes max_total_bytes path total_bytes)
    map_files max_file_bytes max_total_bytes paths total (mappings ++ (region ∷ []))

  -- `MmapCorpus::open_with_limits`
  unfoldable pub open_with_limits : FilePath → Listing → ℕ → ℕ → M MmapCorpus
  open_with_limits base listing max_file_bytes max_total_bytes = do
    file_paths ← lift (collect_files base listing [])
    mappings ← map_files max_file_bytes max_total_bytes (sort file_paths) 0 []
    pure (record { base = base; mappings = mappings })

  -- `MmapCorpus::open`
  unfoldable pub open_corpus : FilePath → Listing → M MmapCorpus
  unfolding open_with_limits
  open_corpus base listing =
      open_with_limits base listing (1024 * 1024 * 1024) (10 * 1024 * 1024 * 1024)
