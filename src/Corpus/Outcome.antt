-- ===== src/Corpus/Outcome.antt =====
-- src/corpus.rs: what `open_with_limits` returns on the listing of a directory, a corpus or an error.
use kernelkit.Common.{ℕ, List, [], ◌∷◌, ◌++◌, ◌≡◌, ◌≢◌, refl, ◌⊎◌, inl, inr, arith}
use kernelkit.Errors.{Error, Result, ok, err, panicked}
use kernelkit.Errors as Errors
use kernelkit.Machine.{FilePath, Os, State, M, continue, cleanup_on_failure}
use kernelkit.Corpus.Walk.{
  Listing, unreadable, entries, Entries, end, bad_entry, entry, FileType, unknown, symlink,
  directory, regular, special, join, collect_files, collect_entries, collect_entry,
}
use kernelkit.Corpus.Order.{sort}
use kernelkit.Corpus.Files.{Plain, files}
use kernelkit.Corpus.Mapping.{
  MmapRegion, MmapCorpus, map_one, map_files, drop_regions, open_with_limits,
}
use kernelkit.Corpus.Run.{IsRun, open_with_limits_iff}
use kernelkit.Corpus.Failures.{Stops, open_with_limits-err}

bind-ne-panicked :
    {A B : Type 0} (m : Result A) (f : A → Result B)
    → m ≢ panicked
    → ((a : A) → f a ≢ panicked)
    → Errors.◌>>=◌ m f ≢ panicked
bind-ne-panicked (ok a) f h k = k a
bind-ne-panicked (err e) f h k = λ eq. cc
bind-ne-panicked panicked f h k = λ eq. h refl

mutual
  unfolding collect_files

  collect_files-ne-panicked :
      (dir : FilePath) (l : Listing) (out : List FilePath) → collect_files dir l out ≢ panicked
  collect_files-ne-panicked dir (unreadable source) out = λ eq. cc
  collect_files-ne-panicked dir (entries es) out = collect_entries-ne-panicked dir es out

  collect_entries-ne-panicked :
      (dir : FilePath) (es : Entries) (out : List FilePath) → collect_entries dir es out ≢ panicked
  collect_entries-ne-panicked dir end out = λ eq. cc
  collect_entries-ne-panicked dir (bad_entry source es) out = λ eq. cc
  collect_entries-ne-panicked dir (entry name type es) out =
      bind-ne-panicked (collect_entry (join dir name) type out) (collect_entries dir es)
        (collect_entry-ne-panicked (join dir name) type out) (collect_entries-ne-panicked dir es)

  collect_entry-ne-panicked :
      (path : FilePath) (type : FileType) (out : List FilePath)
      → collect_entry path type out ≢ panicked
  collect_entry-ne-panicked path (unknown source) out = λ eq. cc
  collect_entry-ne-panicked path symlink out = λ eq. cc
  collect_entry-ne-panicked path (directory l) out = collect_files-ne-panicked path l out
  collect_entry-ne-panicked path regular out = λ eq. cc
  collect_entry-ne-panicked path special out = λ eq. cc

continue-ne-panicked :
    {A B : Type 0} (p : Result A × State) (f : A → M B)
    → p.0 ≢ panicked
    → ((a : A) (s : State) → (f a s).0 ≢ panicked)
    → (continue p f).0 ≢ panicked
continue-ne-panicked (ok a, s) f h k = k a s
continue-ne-panicked (err e, s) f h k = λ eq. cc
continue-ne-panicked (panicked, s) f h k = λ eq. h refl

cleanup-ne-panicked :
    {A : Type 0} (cleanup : State → State) (p : Result A × State)
    → p.0 ≢ panicked
    → (cleanup_on_failure cleanup p).0 ≢ panicked
cleanup-ne-panicked cleanup (ok a, s) h = λ eq. cc
cleanup-ne-panicked cleanup (err e, s) h = λ eq. cc
cleanup-ne-panicked cleanup (panicked, s) h = λ eq. h refl

module _ (os : Os) (max_file max_total : ℕ) where
  map_one-ne-panicked :
      (path : FilePath) (total : ℕ) (s : State)
      → (map_one os max_file max_total path total s).0 ≢ panicked
  unfolding map_one
  map_one-ne-panicked path total s = λ eq. grind arith

  map_files-ne-panicked :
      (paths : List FilePath) (total : ℕ) (mappings : List MmapRegion) (s : State)
      → (map_files os max_file max_total paths total mappings s).0 ≢ panicked
  unfolding map_files
  map_files-ne-panicked [] total mappings s = λ eq. cc
  map_files-ne-panicked (path ∷ paths) total mappings s =
      continue-ne-panicked _ _
        (cleanup-ne-panicked (drop_regions os mappings) (map_one os max_file max_total path total s)
          (map_one-ne-panicked path total s))
        (λ (region, next) t. map_files-ne-panicked paths next (mappings ++ (region ∷ [])) t)

  open_with_limits-ne-panicked :
      (base : FilePath) (listing : Listing) (s : State)
      → (open_with_limits os base listing max_file max_total s).0 ≢ panicked
  unfolding open_with_limits
  open_with_limits-ne-panicked base listing s =
      continue-ne-panicked (collect_files base listing [], s) _
        (collect_files-ne-panicked base listing [])
        (λ paths t.
          continue-ne-panicked _ _ (map_files-ne-panicked (sort paths) 0 [] t) (λ regions u eq. cc))

  -- How opening a corpus fails: in the walk, before the first file is opened, or at the first file in
  -- the sorted order that cannot be mapped, when those in front of it have been mapped and are dropped
  -- again.
  abbrev pub Fails : FilePath → Listing → State → Error → State → Type 0
  Fails base listing s e s' =
      ((collect_files base listing [] ≡ err e) × (s' ≡ s))
      ⊎ (Plain listing × Stops os max_file max_total (sort (files base listing)) 0 [] s e s')

  -- On the listing of a directory, opening a corpus returns a corpus or an error, and does not panic. A
  -- corpus has all the files, mapped one by one in the sorted order, within the limits and unchanged. An
  -- error is that of the walk, and then no file was opened; or that of the first file that cannot be
  -- mapped, and then those in front of it were mapped and are dropped again, in the order in which they
  -- were mapped. How the listing was read is not part of the statement.
  pub open_with_limits_outcome :
      (base : FilePath) (listing : Listing) (s : State)
      → let (result, s') = open_with_limits os base listing max_file max_total s in
        ((corpus : MmapCorpus) × (result ≡ ok corpus)
          × IsRun os max_file max_total base listing s corpus s')
        ⊎ ((e : Error) × (result ≡ err e) × Fails base listing s e s')
  open_with_limits_outcome base listing s =
      split (open_with_limits os base listing max_file max_total s) refl
    where
      split :
          (p : Result MmapCorpus × State)
          → open_with_limits os base listing max_file max_total s ≡ p
          → ((corpus : MmapCorpus) × (p.0 ≡ ok corpus)
              × IsRun os max_file max_total base listing s corpus p.1)
            ⊎ ((e : Error) × (p.0 ≡ err e) × Fails base listing s e p.1)
      split (ok corpus, s') h =
          inl (
            corpus,
            refl,
            (open_with_limits_iff os max_file max_total base listing s corpus s').0 h,
          )
      split (err e, s') h =
          inr (e, refl, open_with_limits-err os max_file max_total base listing s e s' h)
      split (panicked, s') h = absurd (open_with_limits-ne-panicked base listing s (cc))
