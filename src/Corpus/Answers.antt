-- ===== src/Corpus/Answers.antt =====
-- src/corpus.rs: one turn of the loop of `open_with_limits`, against what the system answers.
use kernelkit.Common.{ℕ, ◌+◌, ◌∷◌, ◌≤◌, ◌≡◌, ◌↔◌, ◌∙◌, arith, inl, inr, true, min}
use kernelkit.Errors.{ok, done}
use kernelkit.Text.{u64_max}
use kernelkit.Machine.{FilePath, Metadata, Mapping, Event, Calls, Os, State}
use kernelkit.Machine.Syscalls as Sys
use kernelkit.Corpus.Mapping.{MmapRegion, map_one, advise_sequential}
use kernelkit.Mmap.Identity.{Io-cases}

-- The calls behind the opening of the file, and behind its mapping.
abbrev opened : FilePath → ℕ → Calls → Calls
opened path fd calls = Event.open_file path (done fd) ∷ calls

abbrev calls_mapped : FilePath → ℕ → Mapping → Calls → Calls
calls_mapped path fd mmap calls =
    Event.map_file fd true (done mmap) ∷ Event.fstat fd ∷ opened path fd calls

-- The state behind the second look at the file.
abbrev looked_again : FilePath → ℕ → Mapping → State → State
looked_again path fd mmap s = record s {
  calls = Event.fstat fd ∷ calls_mapped path fd mmap s.calls;
}

module _ (os : Os) (max_file max_total : ℕ) (path : FilePath) (total : ℕ) (s : State)
    (region : MmapRegion) (total' : ℕ) (s' : State) where
  -- The file of the region is opened, its size is within the limits, it is mapped, and it is the same
  -- file with the same size behind the mapping; the advice on the mapping succeeds.
  abbrev pub IsMapped : Type 0
  IsMapped =
      (fd : ℕ) × (before after : Metadata) × (os.open_answer s.calls path ≡ done fd)
      × ((os.fstat_answer (opened path fd s.calls) fd ≡ done before)
          × (os.map_answer (Event.fstat fd ∷ opened path fd s.calls) fd true ≡ done region.mmap)
          × (os.fstat_answer (calls_mapped path fd region.mmap s.calls) fd ≡ done after))
      × ((region.path ≡ path) × (before.len ≡ region.size) × (after.len ≡ region.size))
      × ((before.dev ≡ after.dev) × (before.ino ≡ after.ino))
      × ((region.size ≤ max_file)
          × (total' ≡ min (total + region.size) u64_max)
          × (total' ≤ max_total))
      × (let advised = advise_sequential os region.mmap path (looked_again path fd region.mmap s) in
          (advised.0 ≡ ok tt) × (s' ≡ Sys.close_file os fd advised.1))

  map_one-of_IsMapped :
      IsMapped → map_one os max_file max_total path total s ≡ (ok (region, total'), s')
  unfolding map_one
  map_one-of_IsMapped
        (fd, before, after, o, (f, a, g), (p, n, n'), (d, i), (small, sum, fits), (adv, e)) =
      grind arith

  module _ (h : map_one os max_file max_total path total s ≡ (ok (region, total'), s')) where
    open_answered : (fd : ℕ) × (os.open_answer s.calls path ≡ done fd)
    unfolding map_one
    open_answered = elim (Io-cases (os.open_answer s.calls path)) [
      | inr (e, o) ↦ absurd (grind arith)
      | inl found ↦ found
    ]

    module _ (fd : ℕ) (o : os.open_answer s.calls path ≡ done fd) where
      fstat_answered :
          (before : Metadata) × (os.fstat_answer (opened path fd s.calls) fd ≡ done before)
      unfolding map_one
      fstat_answered = elim (Io-cases (os.fstat_answer (opened path fd s.calls) fd)) [
        | inr (e, f) ↦ absurd (grind arith)
        | inl found ↦ found
      ]

      module _ (before : Metadata)
          (f : os.fstat_answer (opened path fd s.calls) fd ≡ done before) where
        region_made : (region.path ≡ path) × (before.len ≡ region.size)
        unfolding map_one
        region_made = (grind arith, grind arith)

        within_limits :
            (before.len ≤ max_file)
            × (total' ≡ min (total + before.len) u64_max)
            × (total' ≤ max_total)
        unfolding map_one
        within_limits = (grind arith, grind arith, grind arith)

        map_answered :
            os.map_answer (Event.fstat fd ∷ opened path fd s.calls) fd true ≡ done region.mmap
        unfolding map_one
        map_answered =
            elim (Io-cases (os.map_answer (Event.fstat fd ∷ opened path fd s.calls) fd true)) [
              | inr (e, a) ↦ absurd (grind arith)
              | inl (m, a) ↦ grind arith
            ]

        module _
            (a : os.map_answer (Event.fstat fd ∷ opened path fd s.calls) fd true
              ≡ done region.mmap) where
          looked :
              (after : Metadata) × (os.fstat_answer (calls_mapped path fd region.mmap s.calls) fd
                ≡ done after)
          unfolding map_one
          looked = elim (Io-cases (os.fstat_answer (calls_mapped path fd region.mmap s.calls) fd)) [
            | inr (e, g) ↦ absurd (grind arith)
            | inl found ↦ found
          ]

          module _ (after : Metadata)
              (g : os.fstat_answer (calls_mapped path fd region.mmap s.calls) fd ≡ done after) where
            same_file :
                (after.len ≡ before.len) × (before.dev ≡ after.dev) × (before.ino ≡ after.ino)
            unfolding map_one
            same_file = (grind arith, grind arith, grind arith)

            advice_answered :
                let advised =
                  advise_sequential os region.mmap path (looked_again path fd region.mmap s) in
                (advised.0 ≡ ok tt) × (s' ≡ Sys.close_file os fd advised.1)
            unfolding map_one
            advice_answered = (grind arith, grind arith)

    IsMapped-of_map_one : IsMapped
    IsMapped-of_map_one =
        let (fd, o) = open_answered in
        let (before, f) = fstat_answered fd o in
        let (p, n) = region_made fd o before f in
        let (small, sum, fits) = within_limits fd o before f in
        let a = map_answered fd o before f in
        let (after, g) = looked fd o before f a in
        let (n', d, i) = same_file fd o before f a after g in
        (
          fd,
          before,
          after,
          o,
          (f, a, g),
          (p, n, n' ∙ n),
          (d, i),
          (rw (← n) small, rw (← n) sum, fits),
          advice_answered fd o before f a after g,
        )

  -- A turn of the loop maps a file exactly where the system answers so.
  pub map_one_iff :
      (map_one os max_file max_total path total s ≡ (ok (region, total'), s')) ↔ IsMapped
  map_one_iff = (IsMapped-of_map_one, map_one-of_IsMapped)
