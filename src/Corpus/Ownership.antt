-- ===== src/Corpus/Ownership.antt =====
-- src/corpus.rs: what opening a corpus leaves mapped and open, where it succeeds and where it fails.
use kernelkit.Common.{ℕ, List, [], ◌∷◌, ◌++◌, ◌≡◌, refl, ap, sym, ◌∙◌, arith}
use kernelkit.Errors.{Result, ok, err, panicked}
use kernelkit.Machine.{FilePath, Os, State, pure, continue, cleanup_on_failure}
use kernelkit.Machine.Held.{
  Resource, mapping, give_back, held, Balanced, give_back_first, give_back_comm,
  give_back_descriptor_second,
}
use kernelkit.Corpus.Walk.{Listing, collect_files}
use kernelkit.Corpus.Order.{sort}
use kernelkit.Corpus.Mapping.{
  MmapRegion, MmapCorpus, map_one, map_files, drop_regions, open_with_limits,
}

abbrev resource : MmapRegion → Resource
resource r = mapping r.mmap.ptr r.mmap.len

-- The mappings of the regions on top of what is held, the last region first.
abbrev pub pushed : List MmapRegion → List Resource → List Resource
pushed [] h = h
pushed (r ∷ rs) h = pushed rs (resource r ∷ h)

pushed-append :
    (rs : List MmapRegion) (r : MmapRegion) (h : List Resource)
    → pushed (rs ++ (r ∷ [])) h ≡ resource r ∷ pushed rs h
pushed-append [] r h = refl
pushed-append (q ∷ rs) r h = pushed-append rs r (resource q ∷ h)

give_back_all : List MmapRegion → List Resource → List Resource
give_back_all [] xs = xs
give_back_all (r ∷ rs) xs = give_back_all rs (give_back (resource r) xs)

give_back_all-give_back :
    (rs : List MmapRegion) (x : Resource) (xs : List Resource)
    → give_back_all rs (give_back x xs) ≡ give_back x (give_back_all rs xs)
unfolding give_back_all
give_back_all-give_back [] x xs = refl
give_back_all-give_back (r ∷ rs) x xs =
    ap (give_back_all rs) (give_back_comm (resource r) x xs)
    ∙ give_back_all-give_back rs x (give_back (resource r) xs)

give_back_all-pushed :
    (rs : List MmapRegion) (h : List Resource) → give_back_all rs (pushed rs h) ≡ h
unfolding give_back_all
give_back_all-pushed [] h = refl
give_back_all-pushed (r ∷ rs) h =
    give_back_all-give_back rs (resource r) (pushed rs (resource r ∷ h))
    ∙ ap (give_back (resource r)) (give_back_all-pushed rs (resource r ∷ h))
    ∙ give_back_first (resource r) h

module _ (os : Os) where
  drop_regions-held :
      (rs : List MmapRegion) (s : State)
      → held (drop_regions os rs s).calls ≡ give_back_all rs (held s.calls)
  unfolding drop_regions give_back_all
  drop_regions-held [] s = refl
  drop_regions-held (r ∷ rs) s = drop_regions-held rs _

  abbrev its_mapping : MmapRegion × ℕ → List Resource
  its_mapping (r, total) = resource r ∷ []

  map_one-Balanced :
      (max_file max_total : ℕ) (path : FilePath) (total : ℕ) (s : State)
      → Balanced its_mapping s (map_one os max_file max_total path total s)
  unfolding map_one
  map_one-Balanced max_file max_total path total s =
      grind (arith, give_back_first, give_back_descriptor_second)

  -- What is held behind a run: the mappings of the regions where it succeeds, and else nothing new.
  abbrev left_open : Result (List MmapRegion) → List Resource → List Resource
  left_open (ok regions) h = pushed regions h
  left_open (err e) h = h
  left_open panicked h = h

  map_files-held :
      (max_file max_total : ℕ) (paths : List FilePath) (total : ℕ) (regions : List MmapRegion)
      (s : State) (h : List Resource)
      → held s.calls ≡ pushed regions h
      → let p = map_files os max_file max_total paths total regions s in
        held p.1.calls ≡ left_open p.0 h
  unfolding map_files
  map_files-held mf mt [] total regions s h e = e
  map_files-held mf mt (path ∷ paths) total regions s h e =
      after (map_one os mf mt path total s) (map_one-Balanced mf mt path total s)
        (map_files-held mf mt paths)
    where
      rest : MmapRegion × ℕ → State → Result (List MmapRegion) × State
      rest (region, total') = map_files os mf mt paths total' (regions ++ (region ∷ []))

      after :
          (p : Result (MmapRegion × ℕ) × State)
          → Balanced its_mapping s p
          → ((total' : ℕ) (regions' : List MmapRegion) (s' : State) (h' : List Resource)
              → held s'.calls ≡ pushed regions' h'
              → let q = map_files os mf mt paths total' regions' s' in
                held q.1.calls ≡ left_open q.0 h')
          → let q = continue (cleanup_on_failure (drop_regions os regions) p) rest in
            held q.1.calls ≡ left_open q.0 h
      after (ok (region, total'), s') b ih = ih total' (regions ++ (region ∷ [])) s' h (
          b
          ∙ ap (λ (l : List Resource). resource region ∷ l) e
          ∙ sym (pushed-append regions region h))
      after (err x, s') b ih =
          drop_regions-held regions s'
          ∙ ap (give_back_all regions) (b ∙ e)
          ∙ give_back_all-pushed regions h
      after (panicked, s') b ih =
          drop_regions-held regions s'
          ∙ ap (give_back_all regions) (b ∙ e)
          ∙ give_back_all-pushed regions h

  abbrev pub left_by : Result MmapCorpus → List Resource → List Resource
  left_by (ok corpus) h = pushed corpus.mappings h
  left_by (err e) h = h
  left_by panicked h = h

  -- Opening a corpus leaves the mappings of its regions and no open file; where it fails, at any
  -- file, nothing that it mapped or opened is left.
  pub open_with_limits-held :
      (base : FilePath) (listing : Listing) (max_file max_total : ℕ) (s : State)
      → let p = open_with_limits os base listing max_file max_total s in
        held p.1.calls ≡ left_by p.0 (held s.calls)
  unfolding open_with_limits
  open_with_limits-held base listing mf mt s = walked (collect_files base listing [])
    where
      wrap : List MmapRegion → State → Result MmapCorpus × State
      wrap mappings = pure (record { base = base; mappings = mappings })

      mapped :
          (q : Result (List MmapRegion) × State)
          → held q.1.calls ≡ left_open q.0 (held s.calls)
          → let p = continue q wrap in held p.1.calls ≡ left_by p.0 (held s.calls)
      mapped (ok regions, s') e = e
      mapped (err x, s') e = e
      mapped (panicked, s') e = e

      after_walk : List FilePath → State → Result MmapCorpus × State
      after_walk paths s' = continue (map_files os mf mt (sort paths) 0 [] s') wrap

      walked :
          (r : Result (List FilePath))
          → let p = continue (r, s) after_walk in held p.1.calls ≡ left_by p.0 (held s.calls)
      walked (ok paths) =
          mapped (map_files os mf mt (sort paths) 0 [] s)
            (map_files-held mf mt (sort paths) 0 [] s (held s.calls) refl)
      walked (err e) = refl
      walked panicked = refl

  -- Dropping the regions of an open corpus gives back all their mappings.
  pub drop_regions-pushed :
      (regions : List MmapRegion) (h : List Resource) (s : State)
      → held s.calls ≡ pushed regions h
      → held (drop_regions os regions s).calls ≡ h
  drop_regions-pushed regions h s e =
      drop_regions-held regions s ∙ ap (give_back_all regions) e ∙ give_back_all-pushed regions h
