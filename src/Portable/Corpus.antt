-- ===== src/Portable/Corpus.antt =====
-- src/corpus.rs where the system is unix and not Linux: the advice on a mapping is not given.
use kernelkit.Common.{ℕ, ◌+◌, ◌*◌, min, true, List, [], ◌∷◌, ◌++◌, ltb, if◌then◌else◌}
use kernelkit.Text.{u64_max}
use kernelkit.Machine.{
  FilePath, Mapping, Os, State, M, pure, fail, lift, ◌>>=◌, ◌>>◌, defer, on_failure,
}
use kernelkit.Machine.Syscalls as Sys
use kernelkit.FileIdentity.{io, from_metadata}
use kernelkit.Corpus.Walk.{Listing, collect_files}
use kernelkit.Corpus.Order.{sort}
use kernelkit.Corpus.Mapping.{
  MmapRegion, MmapCorpus, file_too_large, corpus_too_large, validate_mapping_stability,
  drop_regions,
}
pub mod Advice

-- `advise_sequential`
unfoldable pub advise_sequential : Mapping → FilePath → M (Unit {0})
advise_sequential mmap path = pure tt

module _ (os : Os) where
  -- One turn of the loop: the region, and the bytes mapped so far (`saturating_add`).
  unfoldable pub map_one : ℕ → ℕ → FilePath → ℕ → M (MmapRegion × ℕ)
  unfolding from_metadata validate_mapping_stability advise_sequential
  map_one max_file_bytes max_total_bytes path total_bytes = do
    file ← io "open" (Sys.open_file os path)
    defer (Sys.close_file os file) do
      metadata ← io "metadata" (Sys.fstat os file)
      let expected_identity = from_metadata metadata
      let total = min (total_bytes + metadata.len) u64_max
      if ltb max_file_bytes metadata.len
          then fail (file_too_large metadata.len max_file_bytes)
          else if ltb max_total_bytes total
          then fail (corpus_too_large max_total_bytes)
          else do
            mmap ← io "mmap" (Sys.map_file os file true)
            on_failure (Sys.drop_mapping os mmap) do
              validate_mapping_stability os file expected_identity metadata.len
              advise_sequential mmap path
              pure (record { mmap = mmap; path = path; size = metadata.len }, total)

  -- The loop over `file_paths`
  unfoldable pub map_files : ℕ → ℕ → List FilePath → ℕ → List MmapRegion → M (List MmapRegion)
  map_files max_file_bytes max_total_bytes [] total_bytes mappings = pure mappings
  map_files max_file_bytes max_total_bytes (path ∷ paths) total_bytes mappings = do
    (region, total) ←
        on_failure (drop_regions os mappings)
          (map_one max_file_bytes max_total_bytes path total_bytes)
    map_files max_file_bytes max_total_bytes paths total (mappings ++ (region ∷ []))

  -- `MmapCorpus::open_with_limits`
  unfoldable pub open_with_limits : FilePath → Listing → ℕ → ℕ → M MmapCorpus
  open_with_limits base listing max_file_bytes max_total_bytes = do
    file_paths ← lift (collect_files base listing [])
    mappings ← map_files max_file_bytes max_total_bytes (sort file_paths) 0 []
    pure (record { base = base; mappings = mappings })
