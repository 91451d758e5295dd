-- ===== src/Portable/Corpus/Advice.antt =====
-- src/corpus.rs: the corpus that is opened on Linux, with advice on its mappings, against the one that
-- is opened elsewhere.
use kernelkit.Common.{ℕ, pos, true, List, [], ◌∷◌, ◌++◌, ◌≡◌, refl, ap, arith}
use kernelkit.Errors.{Result, ok, err, panicked}
use kernelkit.Machine.{
  FilePath, sequential, Event, Calls, Os, State, M, continue, cleanup_on_failure, ◌>>=◌,
}
use kernelkit.Machine.Syscalls as Sys
use kernelkit.Corpus.Walk.{Listing, collect_files}
use kernelkit.Corpus.Order.{sort}
use kernelkit.Corpus.Mapping as Linux
use kernelkit.Corpus.Mapping.{MmapRegion, MmapCorpus, drop_regions}
use kernelkit.Portable.Corpus.{map_one, map_files, open_with_limits}

-- The calls without those that advise.
abbrev pub unadvised : Calls → Calls
unadvised [] = []
unadvised (Event.madvise ptr len advice ∷ es) = unadvised es
unadvised (e ∷ es) = e ∷ unadvised es

abbrev pub unadvised_state : State → State
unadvised_state s = record s { calls = unadvised s.calls }

abbrev pub without_advice : {A : Type 0} → Result A × State → Result A × State
without_advice (r, s) = (r, unadvised_state s)

-- A system that accepts the advice on sequential reads, and answers about files as if no advice had
-- been given.
abbrev pub TakesAdvice : Os → Type 0
TakesAdvice os =
    ((calls : Calls) (ptr len : ℕ) → os.madvise_answer calls ptr len sequential ≡ pos 0)
    × ((calls : Calls) (path : FilePath)
        → os.open_answer (unadvised calls) path ≡ os.open_answer calls path)
    × ((calls : Calls) (fd : ℕ) → os.fstat_answer (unadvised calls) fd ≡ os.fstat_answer calls fd)
    × ((calls : Calls) (fd : ℕ)
        → os.map_answer (unadvised calls) fd true ≡ os.map_answer calls fd true)

module _ (os : Os) (takes : TakesAdvice os) (max_file max_total : ℕ) where
  map_one-unadvised :
      (path : FilePath) (total : ℕ) (s : State)
      → map_one os max_file max_total path total (unadvised_state s)
        ≡ without_advice (Linux.map_one os max_file max_total path total s)
  unfolding map_one Linux.map_one
  map_one-unadvised path total s = let (accepted, opens, stats, maps) = takes in grind arith

  drop_regions-unadvised :
      (regions : List MmapRegion) (s : State)
      → drop_regions os regions (unadvised_state s) ≡ unadvised_state (drop_regions os regions s)
  unfolding drop_regions
  drop_regions-unadvised [] s = refl
  drop_regions-unadvised (r ∷ rs) s = drop_regions-unadvised rs (Sys.drop_mapping os r.mmap s)

  -- What follows a turn of the loop.
  turn-unadvised :
      {A B : Type 0} (regions : List MmapRegion) (p : Result A × State) (k l : A → M B)
      → ((a : A) (s : State) → k a (unadvised_state s) ≡ without_advice (l a s))
      → continue (cleanup_on_failure (drop_regions os regions) (without_advice p)) k
        ≡ without_advice (continue (cleanup_on_failure (drop_regions os regions) p) l)
  turn-unadvised regions (ok a, s) k l same = same a s
  turn-unadvised regions (err e, s) k l same =
      ap (λ t. (err e, t)) (drop_regions-unadvised regions s)
  turn-unadvised regions (panicked, s) k l same =
      ap (λ t. (panicked, t)) (drop_regions-unadvised regions s)

  map_files-unadvised :
      (paths : List FilePath) (total : ℕ) (regions : List MmapRegion) (s : State)
      → map_files os max_file max_total paths total regions (unadvised_state s)
        ≡ without_advice (Linux.map_files os max_file max_total paths total regions s)
  unfolding map_files Linux.map_files
  map_files-unadvised [] total regions s = refl
  map_files-unadvised (path ∷ paths) total regions s = rw (map_one-unadvised path total s) (
      turn-unadvised regions (Linux.map_one os max_file max_total path total s) _ _
        (λ (region, total') t. map_files-unadvised paths total' (regions ++ (region ∷ [])) t))

  -- On a system that takes the advice of Linux and answers about files as if it had not been given, a
  -- corpus opens elsewhere with the same outcome, the same regions or the same error, and the same
  -- calls without the advice.
  pub open_with_limits-unadvised :
      (base : FilePath) (listing : Listing) (s : State)
      → open_with_limits os base listing max_file max_total (unadvised_state s)
        ≡ without_advice (Linux.open_with_limits os base listing max_file max_total s)
  unfolding open_with_limits Linux.open_with_limits
  open_with_limits-unadvised base listing s = walked (collect_files base listing [])
    where
      corpus_of : List MmapRegion → M MmapCorpus
      corpus_of regions t = (ok (record { base = base; mappings = regions }), t)

      walked :
          (found : Result (List FilePath))
          → continue
              (found, unadvised_state s)
              (λ paths. map_files os max_file max_total (sort paths) 0 [] >>= corpus_of)
            ≡ without_advice (
                continue
                  (found, s)
                  λ paths. Linux.map_files os max_file max_total (sort paths) 0 [] >>= corpus_of)
      walked (ok paths) =
          rw (map_files-unadvised (sort paths) 0 [] s)
            (wrapped (Linux.map_files os max_file max_total (sort paths) 0 [] s))
        where
          wrapped :
              (p : Result (List MmapRegion) × State)
              → continue (without_advice p) corpus_of ≡ without_advice (continue p corpus_of)
          wrapped (ok regions, t) = refl
          wrapped (err e, t) = refl
          wrapped (panicked, t) = refl
      walked (err e) = refl
      walked panicked = refl
