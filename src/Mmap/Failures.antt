-- ===== src/Mmap/Failures.antt =====
-- src/mmap.rs: which call makes `open_with_advice` fail, and with which error.
use kernelkit.Common.{
  ◌≢◌, ◌⊎◌, ℕ, ◌≤◌, ◌<◌, ◌∷◌, ◌≡◌, ◌↔◌, inl, inr, true, false, arith, dec_lt, Bool-cases,
}
use kernelkit.Errors.{Error, IoError, err, done, failed, system, custom, other, invalid_data, text}
use kernelkit.Text.{u64_max}
use kernelkit.Machine.{FilePath, Metadata, Mapping, Event, Calls, Os, State}
use kernelkit.FileIdentity.{from_metadata, changed}
use kernelkit.Mmap.File.{MmapAdvice, advise, open_with_advice}
use kernelkit.Mmap.Advice.{IsRefused, advise-err}
use kernelkit.Mmap.Identity.{Io-cases, looked_twice}

module _ (os : Os) (path : FilePath) (advice : MmapAdvice) (s : State) where
  abbrev opened : ℕ → Calls
  opened fd = Event.open_file path (done fd) ∷ s.calls

  abbrev file_mapped : ℕ → Mapping → Calls
  file_mapped fd m = Event.map_file fd false (done m) ∷ Event.fstat fd ∷ opened fd

  abbrev Looked : ℕ → Metadata → Type 0
  Looked fd before =
      (os.open_answer s.calls path ≡ done fd) × (os.fstat_answer (opened fd) fd ≡ done before)

  abbrev Mapped : ℕ → Metadata → Mapping → Type 0
  Mapped fd before m =
      Looked fd before × (os.map_answer (Event.fstat fd ∷ opened fd) fd false ≡ done m)

  abbrev LookedAgain : ℕ → Metadata → Mapping → Metadata → Type 0
  LookedAgain fd before m after =
      Mapped fd before m × (m.len ≤ u64_max) × (os.fstat_answer (file_mapped fd m) fd ≡ done after)

  -- The mapping and the two looks show one file of one length, or they do not.
  abbrev Same : Metadata → Mapping → Metadata → Type 0
  Same before m after =
      (before.dev ≡ after.dev)
      × (before.ino ≡ after.ino)
      × (before.len ≡ after.len)
      × (m.len ≡ after.len)

  abbrev Differs : Metadata → Mapping → Metadata → Type 0
  Differs before m after =
      (before.dev ≢ after.dev)
      ⊎ (before.ino ≢ after.ino)
      ⊎ (before.len ≢ after.len)
      ⊎ (m.len ≢ after.len)

  -- The first thing that goes wrong, and the error that names it.
  pub data OpenFails : Error → Type 0 where
    not_opened :
        {e : IoError} → os.open_answer s.calls path ≡ failed e → OpenFails (system "open" e)
    not_looked :
        {fd : ℕ} {e : IoError}
        → os.open_answer s.calls path ≡ done fd
        → os.fstat_answer (opened fd) fd ≡ failed e
        → OpenFails (system "metadata" e)
    not_mapped :
        {fd : ℕ} {before : Metadata} {e : IoError}
        → Looked fd before
        → os.map_answer (Event.fstat fd ∷ opened fd) fd false ≡ failed e
        → OpenFails (system "mmap" e)
    too_long :
        {fd : ℕ} {before : Metadata} {m : Mapping}
        → Mapped fd before m
        → u64_max < m.len
        → OpenFails (
            system "open_with_advice"
              (custom other (text "mapped region length does not fit in u64")))
    not_looked_again :
        {fd : ℕ} {before : Metadata} {m : Mapping} {e : IoError}
        → Mapped fd before m
        → m.len ≤ u64_max
        → os.fstat_answer (file_mapped fd m) fd ≡ failed e
        → OpenFails (system "metadata(revalidate)" e)
    other_file :
        {fd : ℕ} {before after : Metadata} {m : Mapping}
        → LookedAgain fd before m after
        → Differs before m after
        → OpenFails (
            system "mmap(revalidate)"
              (custom invalid_data (text "mapped file changed during open")))
    not_advised :
        {fd : ℕ} {before after : Metadata} {m : Mapping} {e : Error}
        → LookedAgain fd before m after
        → Same before m after
        → IsRefused os m advice (looked_twice os path m fd s).calls e
        → OpenFails e

  changed-Differs :
      (before after : Metadata) (m : Mapping)
      → (changed (from_metadata before) m.len (from_metadata after) ≡ true) ↔ Differs before m after
  unfolding changed from_metadata
  changed-Differs before after m = grind arith

  changed-Same :
      (before after : Metadata) (m : Mapping)
      → (changed (from_metadata before) m.len (from_metadata after) ≡ false) ↔ Same before m after
  unfolding changed from_metadata
  changed-Same before after m = grind arith

  fails-of_OpenFails : {e : Error} → OpenFails e → (open_with_advice os path advice s).0 ≡ err e
  unfolding open_with_advice
  fails-of_OpenFails (not_opened o) = grind arith
  fails-of_OpenFails (not_looked o f) = grind arith
  fails-of_OpenFails (not_mapped (o, f) a) = grind arith
  fails-of_OpenFails (too_long ((o, f), a) l) = grind arith
  fails-of_OpenFails (not_looked_again ((o, f), a) l g) = grind arith
  fails-of_OpenFails (other_file {before} {after} {m} (((o, f), a), l, g) d) =
      let c = (changed-Differs before after m).1 d in grind arith
  fails-of_OpenFails (not_advised {fd} {before} {after} {m} {e} (((o, f), a), l, g) d refused) =
      let c = (changed-Same before after m).1 d in
      let adv = (advise-err os m (looked_twice os path m fd s) advice e).1 refused in grind arith

  module _ {e : Error} (h : (open_with_advice os path advice s).0 ≡ err e) where
    module _ (fd : ℕ) (o : os.open_answer s.calls path ≡ done fd) where
      stat_fails :
          (io : IoError) → os.fstat_answer (opened fd) fd ≡ failed io → e ≡ system "metadata" io
      unfolding open_with_advice
      stat_fails io f = grind arith

      module _ (before : Metadata) (f : os.fstat_answer (opened fd) fd ≡ done before) where
        map_fails :
            (io : IoError)
            → os.map_answer (Event.fstat fd ∷ opened fd) fd false ≡ failed io
            → e ≡ system "mmap" io
        unfolding open_with_advice
        map_fails io a = grind arith

        module _ (m : Mapping)
            (a : os.map_answer (Event.fstat fd ∷ opened fd) fd false ≡ done m) where
          length_fails :
              u64_max < m.len
              → e
                ≡ system "open_with_advice"
                    (custom other (text "mapped region length does not fit in u64"))
          unfolding open_with_advice
          length_fails l = grind arith

          module _ (l : m.len ≤ u64_max) where
            second_stat_fails :
                (io : IoError)
                → os.fstat_answer (file_mapped fd m) fd ≡ failed io
                → e ≡ system "metadata(revalidate)" io
            unfolding open_with_advice
            second_stat_fails io g = grind arith

            module _ (after : Metadata)
                (g : os.fstat_answer (file_mapped fd m) fd ≡ done after) where
              change_fails :
                  changed (from_metadata before) m.len (from_metadata after) ≡ true
                  → e
                    ≡ system "mmap(revalidate)"
                        (custom invalid_data (text "mapped file changed during open"))
              unfolding open_with_advice
              change_fails c = grind arith

              advice_fails :
                  changed (from_metadata before) m.len (from_metadata after) ≡ false
                  → (advise os m advice (looked_twice os path m fd s)).0 ≡ err e
              unfolding open_with_advice
              advice_fails c = grind arith

              from_second_look : OpenFails e
              from_second_look =
                  elim (Bool-cases (changed (from_metadata before) m.len (from_metadata after))) [
                    | inl c ↦
                        rw (change_fails c)
                          (other_file (((o, f), a), l, g) ((changed-Differs before after m).0 c))
                    | inr c ↦
                        not_advised (((o, f), a), l, g) ((changed-Same before after m).0 c)
                          ((advise-err os m (looked_twice os path m fd s) advice e).0
                            (advice_fails c))
                  ]

            from_length : OpenFails e
            from_length = elim (Io-cases (os.fstat_answer (file_mapped fd m) fd)) [
              | inl (after, g) ↦ from_second_look after g
              | inr (io, g) ↦ rw (second_stat_fails io g) (not_looked_again ((o, f), a) l g)
            ]

          from_mapping : OpenFails e
          from_mapping = elim (dec_lt u64_max m.len) [
            | yes l ↦ rw (length_fails l) (too_long ((o, f), a) l)
            | no l ↦ from_length (omega arith)
          ]

        from_first_look : OpenFails e
        from_first_look = elim (Io-cases (os.map_answer (Event.fstat fd ∷ opened fd) fd false)) [
          | inl (m, a) ↦ from_mapping m a
          | inr (io, a) ↦ rw (map_fails io a) (not_mapped (o, f) a)
        ]

      from_opening : OpenFails e
      from_opening = elim (Io-cases (os.fstat_answer (opened fd) fd)) [
        | inl (before, f) ↦ from_first_look before f
        | inr (io, f) ↦ rw (stat_fails io f) (not_looked o f)
      ]

    open_fails : (io : IoError) → os.open_answer s.calls path ≡ failed io → e ≡ system "open" io
    unfolding open_with_advice
    open_fails io o = grind arith

    OpenFails-of_open_with_advice : OpenFails e
    OpenFails-of_open_with_advice = elim (Io-cases (os.open_answer s.calls path)) [
      | inl (fd, o) ↦ from_opening fd o
      | inr (io, o) ↦ rw (open_fails io o) (not_opened o)
    ]

  -- Opening a file fails with an error exactly where one of the steps is the first that goes wrong, and
  -- the error names it: the opening, the look at the file, the mapping, a length that is no `u64`, the
  -- second look, a file whose device, inode or length is another one or whose length is not the
  -- mapping's, or the call of `madvise` with the flag of the advice, on a mapping that is not empty.
  pub open_with_advice-err :
      (e : Error) → ((open_with_advice os path advice s).0 ≡ err e) ↔ OpenFails e
  open_with_advice-err e = (λ h. OpenFails-of_open_with_advice h, fails-of_OpenFails)
