-- ===== src/Corpus/Run.antt =====
-- src/corpus.rs: the runs of `open_with_limits`, file by file.
use kernelkit.Common.{
  ℕ, List, [], ◌∷◌, ◌++◌, append-nil, append_assoc, ◌≡◌, ◌↔◌, refl, sym, ap, ◌∙◌, arith,
}
use mathlib.Core.Path.{subst}
use kernelkit.Errors.{Result, ok, err, panicked}
use kernelkit.Machine.{FilePath, Os, State, M, continue, cleanup_on_failure}
use kernelkit.Corpus.Walk.{Listing, collect_files}
use kernelkit.Corpus.Order.{sort}
use kernelkit.Corpus.Files.{Plain, files, collect_files_iff}
use kernelkit.Corpus.Mapping.{
  MmapRegion, MmapCorpus, map_one, map_files, drop_regions, open_with_limits,
}
use kernelkit.Corpus.Answers.{IsMapped, map_one_iff}

-- A step that succeeded, with the state that it leaves.
pub continue-done :
    {A B : Type 0} (p : Result A × State) (f : A → M B) {b : B} {t : State}
    → continue p f ≡ (ok b, t)
    → (a : A) × (s : State) × (p ≡ (ok a, s)) × (f a s ≡ (ok b, t))
continue-done (ok a, s) f h = (a, s, refl, h)
continue-done (err e, s) f h = cc
continue-done (panicked, s) f h = cc

pub cleanup-done :
    {A : Type 0} (cleanup : State → State) (p : Result A × State) {a : A} {s : State}
    → cleanup_on_failure cleanup p ≡ (ok a, s)
    → p ≡ (ok a, s)
cleanup-done cleanup (ok a, s) h = h
cleanup-done cleanup (err e, s) h = cc
cleanup-done cleanup (panicked, s) h = cc

abbrev corpus_on : FilePath → List MmapRegion → MmapCorpus
corpus_on base mappings = record { base = base; mappings = mappings }

module _ (os : Os) (max_file max_total : ℕ) where
  -- The files are mapped one after the other, each at the state and the sum of sizes that the ones
  -- before leave.
  pub data Run : List FilePath → ℕ → State → List MmapRegion → ℕ → State → Type 0 where
    finished : {total : ℕ} {s : State} → Run [] total s [] total s
    turn :
        {path : FilePath} {paths : List FilePath} {total next last : ℕ} {region : MmapRegion}
        {regions : List MmapRegion} {s s' s'' : State}
        → IsMapped os max_file max_total path total s region next s'
        → Run paths next s' regions last s''
        → Run (path ∷ paths) total s (region ∷ regions) last s''

  map_files-Run :
      {paths : List FilePath} {total last : ℕ} {s s' : State} {regions : List MmapRegion}
      (mappings : List MmapRegion)
      → Run paths total s regions last s'
      → map_files os max_file max_total paths total mappings s ≡ (ok (mappings ++ regions), s')
  unfolding map_files
  map_files-Run mappings finished = rw append-nil
  map_files-Run mappings
        (turn {path} {paths} {total} {next} {last} {region} {regions} {s} {s'} {s''} one later) =
      rw ((map_one_iff os max_file max_total path total s region next s').1 one) (
        map_files-Run (mappings ++ (region ∷ [])) later
        ∙ ap (λ l. (ok l, s'')) (append_assoc mappings (region ∷ []) regions))

  Run-map_files :
      (paths : List FilePath) (total : ℕ) (mappings : List MmapRegion) (s : State)
      (result : List MmapRegion) (s' : State)
      → map_files os max_file max_total paths total mappings s ≡ (ok result, s')
      → (regions : List MmapRegion) × (last : ℕ) × (result ≡ mappings ++ regions)
        × Run paths total s regions last s'
  unfolding map_files
  Run-map_files [] total mappings s result s' h =
      let same : result ≡ mappings = grind arith in
      let still : s ≡ s' = grind arith in
      ([], total, rw append-nil same, subst (λ t. Run [] total s [] total t) still finished)
  Run-map_files (path ∷ paths) total mappings s result s' h =
      let ((region, next), middle, first, later) = continue-done _ _ h in
      let one =
        cleanup-done (drop_regions os mappings) (map_one os max_file max_total path total s)
          first in
      let (regions, last, same, run) =
        Run-map_files paths next (mappings ++ (region ∷ [])) middle result s' later in
      (
        region ∷ regions,
        last,
        same ∙ append_assoc mappings (region ∷ []) regions,
        turn ((map_one_iff os max_file max_total path total s region next middle).0 one) run,
      )

  -- The run of a corpus: a directory that is plain, and its files in the sorted order.
  abbrev pub IsRun : FilePath → Listing → State → MmapCorpus → State → Type 0
  IsRun base listing s corpus s' =
      Plain listing
      × (corpus.base ≡ base)
      × ((last : ℕ) × Run (sort (files base listing)) 0 s corpus.mappings last s')

  open_with_limits-IsRun :
      (base : FilePath) (listing : Listing) (s : State) (corpus : MmapCorpus) (s' : State)
      → open_with_limits os base listing max_file max_total s ≡ (ok corpus, s')
      → IsRun base listing s corpus s'
  unfolding open_with_limits
  open_with_limits-IsRun base listing s corpus s' h =
      let (paths, t, walked, h') = continue-done (collect_files base listing [], s) _ h in
      let (plain, found) =
        (collect_files_iff base listing [] paths).0
          (ap (λ (p : Result (List FilePath) × State). p.0) walked) in
      let (regions, t', mapped, made) = continue-done _ _ h' in
      let (regions', last, same, run) = Run-map_files (sort paths) 0 [] t regions t' mapped in
      let still : t ≡ s = grind arith in
      let end_state : t' ≡ s' = grind arith in
      let its : regions' ≡ corpus.mappings = grind arith in
      (
        plain,
        grind arith,
        (
          last,
          subst (λ l. Run (sort l) 0 s corpus.mappings last s') found
              (subst (λ u. Run (sort paths) 0 u corpus.mappings last s') still
                (subst (λ u. Run (sort paths) 0 t corpus.mappings last u) end_state
                  (subst (λ l. Run (sort paths) 0 t l last t') its run))),
        ),
      )

  -- A corpus opens exactly on a plain directory where the system lets each of its files, in the sorted
  -- order, be mapped within the limits and unchanged; its regions are those of this run, and the state
  -- behind it is the run's.
  pub open_with_limits_iff :
      (base : FilePath) (listing : Listing) (s : State) (corpus : MmapCorpus) (s' : State)
      → (open_with_limits os base listing max_file max_total s ≡ (ok corpus, s'))
        ↔ IsRun base listing s corpus s'
  unfolding open_with_limits
  open_with_limits_iff base listing s corpus s' = (
    open_with_limits-IsRun base listing s corpus s',
    λ (plain, based, (last, run)).
        rw ((collect_files_iff base listing [] (files base listing)).1 (plain, refl)) (
          rw (map_files-Run [] run) (ap (λ b. (ok (corpus_on b corpus.mappings), s')) (sym based))),
  )
