-- ===== src/Corpus/Limits.antt =====
-- src/corpus.rs: the regions of a corpus against the files of the directory and the two limits.
use kernelkit.Common.{
  ℕ, ◌+◌, ◌≤◌, ◌<◌, min, List, [], ◌∷◌, ◌++◌, append-nil, ◌≡◌, refl, ap, arith, All, All-append,
}
use kernelkit.Errors.{Result, ok}
use kernelkit.Text.{u64_max}
use kernelkit.Machine.{FilePath, Os, State, pure, continue, cleanup_on_failure}
use kernelkit.Machine.Inversion.{continue-ok, cleanup_on_failure-ok}
use kernelkit.Corpus.Walk.{Listing, collect_files}
use kernelkit.Corpus.Order.{sort}
use kernelkit.Corpus.Files.{Plain, files, collect_files_iff}
use kernelkit.Corpus.Mapping.{
  MmapRegion, MmapCorpus, map_one, map_files, drop_regions, open_with_limits,
}
use mathlib.Core.List.{map}

abbrev pub total_size : List MmapRegion → ℕ
total_size [] = 0
total_size (r ∷ rs) = r.size + total_size rs

total_size-append :
    (rs qs : List MmapRegion) → total_size (rs ++ qs) ≡ total_size rs + total_size qs
total_size-append [] qs = omega arith
total_size-append (r ∷ rs) qs = omega (arith, total_size-append rs qs)

abbrev pub paths_of : List MmapRegion → List FilePath
paths_of = map (λ r. r.path)

paths_shift :
    (rs : List MmapRegion) (r : MmapRegion) (ps : List FilePath)
    → paths_of (rs ++ (r ∷ [])) ++ ps ≡ paths_of rs ++ (r.path ∷ ps)
paths_shift [] r ps = refl
paths_shift (q ∷ rs) r ps = ap (λ (l : List FilePath). q.path ∷ l) (paths_shift rs r ps)

module _ (os : Os) (max_file max_total : ℕ) where
  abbrev pub Fits : MmapRegion → Type 0
  Fits r = r.size ≤ max_file

  -- What one turn of the loop guarantees where it succeeds.
  map_one_sound :
      (path : FilePath) (total : ℕ) (s : State) {region : MmapRegion} {total' : ℕ}
      → (map_one os max_file max_total path total s).0 ≡ ok (region, total')
      → (region.path ≡ path)
        × (region.size ≤ max_file)
        × (total' ≡ min (total + region.size) u64_max)
        × (total' ≤ max_total)
  unfolding map_one
  map_one_sound path total s {region} {total'} h = grind arith

  abbrev pub WithinLimits : List FilePath → List MmapRegion → Type 0
  WithinLimits paths regions =
      (paths_of regions ≡ paths) × All Fits regions × (total_size regions ≤ max_total)

  map_files_sound :
      max_total < u64_max
      → (paths : List FilePath) (total : ℕ) (regions : List MmapRegion) (s : State)
        (result : List MmapRegion)
      → total ≡ total_size regions
      → total ≤ max_total
      → All Fits regions
      → (map_files os max_file max_total paths total regions s).0 ≡ ok result
      → WithinLimits (paths_of regions ++ paths) result
  unfolding map_files
  map_files_sound below [] total regions s result e fits all h =
      let same : regions ≡ result = ground arith in
      rw append-nil (rw (← same) (refl, all, omega arith))
  map_files_sound below (path ∷ paths) total regions s result e fits all h =
      step (map_files_sound below paths)
        (continue-ok (cleanup_on_failure (drop_regions os regions) one) _ h)
    where
      one : Result (MmapRegion × ℕ) × State
      one = map_one os max_file max_total path total s

      step :
          ((total' : ℕ) (regions' : List MmapRegion) (s' : State) (result' : List MmapRegion)
            → total' ≡ total_size regions'
            → total' ≤ max_total
            → All Fits regions'
            → (map_files os max_file max_total paths total' regions' s').0 ≡ ok result'
            → WithinLimits (paths_of regions' ++ paths) result')
          → (a : MmapRegion × ℕ) × (s' : State) × (cleanup_on_failure (drop_regions os regions) one
              ≡ (ok a, s'))
            × ((map_files os max_file max_total paths a.1 (regions ++ (a.0 ∷ [])) s').0 ≡ ok result)
          → WithinLimits (paths_of regions ++ (path ∷ paths)) result
      step ih ((region, total'), s', first, later) =
          let done_one : one ≡ (ok (region, total'), s') =
            cleanup_on_failure-ok (drop_regions os regions) one first in
          let (same_path, small, summed, below_total) =
            map_one_sound path total s {region = region} {total' = total'}
              (ap (λ (p : Result (MmapRegion × ℕ) × State). p.0) done_one) in
          let sum = total_size-append regions (region ∷ []) in
          rw (← same_path) (
            rw (← paths_shift regions region paths) (
              ih total' (regions ++ (region ∷ [])) s' result (omega (arith, sum)) below_total
                (All-append Fits regions (region ∷ []) all (small, tt)) later))

  -- A corpus that opens has one region for each file below the directory, in the sorted order of
  -- their paths; no file is above the one limit, and their sizes add up to at most the other. The
  -- other limit is below the largest `u64`, at which the saturating sum stops.
  pub open_with_limits_sound :
      max_total < u64_max
      → (base : FilePath) (listing : Listing) (s : State) (corpus : MmapCorpus)
      → (open_with_limits os base listing max_file max_total s).0 ≡ ok corpus
      → Plain listing × WithinLimits (sort (files base listing)) corpus.mappings
  unfolding open_with_limits
  open_with_limits_sound below base listing s corpus h =
      collected (continue-ok (collect_files base listing [], s) _ h)
    where
      wrap : List MmapRegion → State → Result MmapCorpus × State
      wrap mappings = pure (record { base = base; mappings = mappings })

      mapped :
          (file_paths : List FilePath) (s' : State)
          → (mappings : List MmapRegion) × (s'' : State) × (map_files os max_file max_total
                (sort file_paths)
                0
                []
                s'
              ≡ (ok mappings, s''))
            × ((wrap mappings s'').0 ≡ ok corpus)
          → WithinLimits (sort file_paths) corpus.mappings
      mapped file_paths s' (mappings, s'', all, e) =
          let same : mappings ≡ corpus.mappings = ground arith in
          rw (← same) (
            map_files_sound below (sort file_paths) 0 [] s' mappings refl (omega arith) tt
              (ap (λ (p : Result (List MmapRegion) × State). p.0) all))

      collected :
          (file_paths : List FilePath) × (s' : State) × (◌≡◌ {A = Result (List FilePath) × State}
              (collect_files base listing [], s)
              (ok file_paths, s'))
            × ((continue (map_files os max_file max_total (sort file_paths) 0 [] s') wrap).0
                ≡ ok corpus)
          → Plain listing × WithinLimits (sort (files base listing)) corpus.mappings
      collected (file_paths, s', e, h') =
          let (plain, found) =
            (collect_files_iff base listing [] file_paths).0
              (ap (λ (p : Result (List FilePath) × State). p.0) e) in
          (plain, rw (← found) (mapped file_paths s' (continue-ok _ wrap h')))
