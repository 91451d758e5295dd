-- ===== src/Mmap/Sized.antt =====
-- src/mmap.rs: `open_read_with_size`, against what the system answers.
use kernelkit.Common.{ℕ, ◌∷◌, ◌≡◌, ◌↔◌, arith, inl, inr, false}
use kernelkit.Errors.{ok, done}
use kernelkit.Machine.{FilePath, Metadata, Mapping, Event, Calls, Os, State}
use kernelkit.Mmap.Advice.{IsAdvised, advise_iff}
use kernelkit.Mmap.File.{MmapAdvice, advise, open_read_with_size}
use kernelkit.Mmap.Identity.{Io-cases, looked_twice}

module _ (os : Os) (path : FilePath) (m : Mapping) (size : ℕ) (s : State) where
  -- The file is opened, has the size, is mapped, and is the same file with the same size behind the
  -- mapping; it is empty or the system takes the advice of sequential reads.
  abbrev pub IsSized : Type 0
  IsSized =
      (fd : ℕ) × (before after : Metadata) × (os.open_answer s.calls path ≡ done fd)
      × (let opened = Event.open_file path (done fd) ∷ s.calls in
          (os.fstat_answer opened fd ≡ done before)
          × (os.map_answer (Event.fstat fd ∷ opened) fd false ≡ done m)
          × (os.fstat_answer (Event.map_file fd false (done m) ∷ Event.fstat fd ∷ opened) fd
              ≡ done after))
      × (before.len ≡ size)
      × (after.len ≡ size)
      × (before.dev ≡ after.dev)
      × (before.ino ≡ after.ino)
      × IsAdvised os m MmapAdvice.sequential (looked_twice os path m fd s).calls

  sized-opens : IsSized → (open_read_with_size os path size s).0 ≡ ok m
  unfolding open_read_with_size
  sized-opens (fd, before, after, o, (f, a, g), n, n', d, i, advised) =
      let adv = (advise_iff os m (looked_twice os path m fd s) MmapAdvice.sequential).1 advised in
      grind arith

  module _ (h : (open_read_with_size os path size s).0 ≡ ok m) where
    open_answered : (fd : ℕ) × (os.open_answer s.calls path ≡ done fd)
    unfolding open_read_with_size
    open_answered = elim (Io-cases (os.open_answer s.calls path)) [
      | inr (e, o) ↦ absurd (grind arith)
      | inl found ↦ found
    ]

    module _ (fd : ℕ) (o : os.open_answer s.calls path ≡ done fd) where
      abbrev opened : Calls
      opened = Event.open_file path (done fd) ∷ s.calls

      fstat_answered : (before : Metadata) × (os.fstat_answer opened fd ≡ done before)
      unfolding open_read_with_size
      fstat_answered = elim (Io-cases (os.fstat_answer opened fd)) [
        | inr (e, f) ↦ absurd (grind arith)
        | inl found ↦ found
      ]

      module _ (before : Metadata) (f : os.fstat_answer opened fd ≡ done before) where
        map_answered : os.map_answer (Event.fstat fd ∷ opened) fd false ≡ done m
        unfolding open_read_with_size
        map_answered = elim (Io-cases (os.map_answer (Event.fstat fd ∷ opened) fd false)) [
          | inr (e, a) ↦ absurd (grind arith)
          | inl (m', a) ↦ grind arith
        ]

        module _ (a : os.map_answer (Event.fstat fd ∷ opened) fd false ≡ done m) where
          abbrev mapped : Calls
          mapped = Event.map_file fd false (done m) ∷ Event.fstat fd ∷ opened

          looked_again : (after : Metadata) × (os.fstat_answer mapped fd ≡ done after)
          unfolding open_read_with_size
          looked_again = elim (Io-cases (os.fstat_answer mapped fd)) [
            | inr (e, g) ↦ absurd (grind arith)
            | inl found ↦ found
          ]

          module _ (after : Metadata) (g : os.fstat_answer mapped fd ≡ done after) where
            same_size : (before.len ≡ size) × (after.len ≡ size)
            unfolding open_read_with_size
            same_size = (grind arith, grind arith)

            same_file : (before.dev ≡ after.dev) × (before.ino ≡ after.ino)
            unfolding open_read_with_size
            same_file = (grind arith, grind arith)

            advice_answered :
                (advise os m MmapAdvice.sequential (looked_twice os path m fd s)).0 ≡ ok tt
            unfolding open_read_with_size
            advice_answered = grind arith

    opens-IsSized : IsSized
    opens-IsSized =
        let (fd, o) = open_answered in
        let (before, f) = fstat_answered fd o in
        let a = map_answered fd o before f in
        let (after, g) = looked_again fd o before f a in
        let (n, n') = same_size fd o before f a after g in
        let (d, i) = same_file fd o before f a after g in
        let adv = advice_answered fd o before f a after g in
        let advised = (advise_iff os m (looked_twice os path m fd s) MmapAdvice.sequential).0 adv in
        (fd, before, after, o, (f, a, g), n, n', d, i, advised)

  -- A file of an expected size opens with a mapping exactly where it has that size in front of the
  -- mapping and behind it, is the same file both times, and the mapping is empty or the system takes
  -- the advice of sequential reads.
  pub open_read_with_size_iff : ((open_read_with_size os path size s).0 ≡ ok m) ↔ IsSized
  open_read_with_size_iff = (opens-IsSized, sized-opens)
