-- ===== src/Corpus/Failures.antt =====
-- src/corpus.rs: the runs of `open_with_limits` that end in an error.
use kernelkit.Common.{
  ℕ, List, [], ◌∷◌, ◌++◌, append-nil, append_assoc, ◌≡◌, refl, ap, ◌⊎◌, inl, inr, arith,
}
use mathlib.Core.Path.{subst}
use kernelkit.Errors.{Error, Result, ok, err, panicked}
use kernelkit.Machine.{FilePath, Os, State, M, continue, cleanup_on_failure}
use kernelkit.Corpus.Walk.{Listing, collect_files}
use kernelkit.Corpus.Order.{sort}
use kernelkit.Corpus.Files.{Plain, files, collect_files_iff}
use kernelkit.Corpus.Mapping.{MmapRegion, map_one, map_files, drop_regions, open_with_limits}
use kernelkit.Corpus.Answers.{map_one_iff}
use kernelkit.Corpus.Run.{Run, finished, turn, cleanup-done}

-- How a chain of two steps fails: in the first, or in the second.
continue-err :
    {A B : Type 0} (p : Result A × State) (f : A → M B) {e : Error} {t : State}
    → continue p f ≡ (err e, t)
    → (p ≡ (err e, t)) ⊎ ((a : A) × (s : State) × (p ≡ (ok a, s)) × (f a s ≡ (err e, t)))
continue-err (ok a, s) f h = inr (a, s, refl, h)
continue-err (err e', s) f h = inl (grind arith)
continue-err (panicked, s) f h = absurd (cc)

cleanup-err :
    {A : Type 0} (cleanup : State → State) (p : Result A × State) {e : Error} {t : State}
    → cleanup_on_failure cleanup p ≡ (err e, t)
    → (s : State) × (p ≡ (err e, s)) × (t ≡ cleanup s)
cleanup-err cleanup (ok a, s) h = absurd (cc)
cleanup-err cleanup (err e', s) h = (s, grind arith, grind arith)
cleanup-err cleanup (panicked, s) h = absurd (cc)

module _ (os : Os) (max_file max_total : ℕ) where
  -- Some files are mapped, the next one fails with the error, and the regions mapped so far, behind
  -- `mappings`, are dropped.
  abbrev pub Stops : List FilePath → ℕ → List MmapRegion → State → Error → State → Type 0
  Stops paths total mappings s e s' =
      (front rest : List FilePath) × (path : FilePath) × (regions : List MmapRegion) × (last : ℕ)
      × (t u : State) × (paths ≡ front ++ (path ∷ rest))
      × Run os max_file max_total front total s regions last t
      × (map_one os max_file max_total path last t ≡ (err e, u))
      × (s' ≡ drop_regions os (mappings ++ regions) u)

  map_files-Stops :
      (paths : List FilePath) (total : ℕ) (mappings : List MmapRegion) (s : State) (e : Error)
      (s' : State)
      → map_files os max_file max_total paths total mappings s ≡ (err e, s')
      → Stops paths total mappings s e s'
  unfolding map_files
  map_files-Stops [] total mappings s e s' h = absurd (cc)
  map_files-Stops (path ∷ paths) total mappings s e s' h = elim (continue-err _ _ h) [
    | inl first ↦
        let (u, fails, dropped) =
          cleanup-err (drop_regions os mappings) (map_one os max_file max_total path total s)
            first in
        ([], paths, path, [], total, s, u, refl, finished, fails, rw append-nil dropped)
    | inr ((region, next), middle, first, later) ↦
        let one =
          cleanup-done (drop_regions os mappings) (map_one os max_file max_total path total s)
            first in
        let (front, rest, path', regions, last, t, u, split, run, fails, dropped) =
          map_files-Stops paths next (mappings ++ (region ∷ [])) middle e s' later in
        (
          path ∷ front,
          rest,
          path',
          region ∷ regions,
          last,
          t,
          u,
          ap (λ l. path ∷ l) split,
          turn ((map_one_iff os max_file max_total path total s region next middle).0 one) run,
          fails,
          rw append_assoc at dropped,
        )
  ]

  -- Opening a corpus fails with the error of the walk, without a call, or with the error of the first
  -- file in the sorted order that cannot be mapped, when the files in front of it have been mapped;
  -- their regions are dropped behind the failure, in the order in which they were mapped.
  pub open_with_limits-err :
      (base : FilePath) (listing : Listing) (s : State) (e : Error) (s' : State)
      → open_with_limits os base listing max_file max_total s ≡ (err e, s')
      → ((collect_files base listing [] ≡ err e) × (s' ≡ s))
        ⊎ (Plain listing × Stops (sort (files base listing)) 0 [] s e s')
  unfolding open_with_limits
  open_with_limits-err base listing s e s' h =
      elim (continue-err (collect_files base listing [], s) _ h) [
        | inl walk ↦ inl (grind arith, grind arith)
        | inr (paths, t, walked, h') ↦
            let (plain, found) =
              (collect_files_iff base listing [] paths).0
                (ap (λ (p : Result (List FilePath) × State). p.0) walked) in
            let still : t ≡ s = grind arith in
            elim (continue-err _ _ h') [
              | inl mapping ↦ inr (
                plain,
                subst (λ l. Stops (sort l) 0 [] s e s') found
                    (subst (λ v. Stops (sort paths) 0 [] v e s') still
                      (map_files-Stops (sort paths) 0 [] t e s' mapping)),
              )
              | inr (regions, t', mapped, made) ↦ absurd (cc)
            ]
      ]
