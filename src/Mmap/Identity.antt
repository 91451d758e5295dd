-- ===== src/Mmap/Identity.antt =====
-- src/mmap.rs: what a successful open says of the file.
use kernelkit.Common.{ℕ, false, ◌∷◌, ◌≤◌, ◌≡◌, ◌↔◌, refl, arith, inl, inr, ◌⊎◌}
use kernelkit.Errors.{ok, Io, IoError, done, failed}
use kernelkit.Text.{u64_max}
use kernelkit.Machine.{FilePath, Metadata, Mapping, Event, Calls, Os, State}
use kernelkit.Mmap.Advice.{IsAdvised, advise_iff}
use kernelkit.Mmap.File.{MmapAdvice, advise, open_with_advice}

pub Io-cases : {A : Type 0} (x : Io A) → ((a : A) × (x ≡ done a)) ⊎ ((e : IoError) × (x ≡ failed e))
Io-cases (done a) = inl (a, refl)
Io-cases (failed e) = inr (e, refl)

module _ (os : Os) (path : FilePath) (m : Mapping) where
  -- What the system answered, call by call: the file, its metadata, the mapping, and its metadata
  -- again, which name the same file and the length of the mapping.
  abbrev pub SameFile : Calls → Type 0
  SameFile calls =
      (fd : ℕ) × (before after : Metadata) × (os.open_answer calls path ≡ done fd)
      × (let opened = Event.open_file path (done fd) ∷ calls in
          (os.fstat_answer opened fd ≡ done before)
          × (os.map_answer (Event.fstat fd ∷ opened) fd false ≡ done m)
          × (os.fstat_answer (Event.map_file fd false (done m) ∷ Event.fstat fd ∷ opened) fd
              ≡ done after))
      × (before.dev ≡ after.dev)
      × (before.ino ≡ after.ino)
      × (before.len ≡ m.len)
      × (after.len ≡ m.len)

  -- A file that opens is the same file, with the same length, in front of the mapping and behind it,
  -- and the mapping is as long as the file.
  pub open_with_advice-SameFile :
      (advice : MmapAdvice) (s : State)
      → (open_with_advice os path advice s).0 ≡ ok m
      → SameFile s.calls
  unfolding open_with_advice
  open_with_advice-SameFile advice s h = elim (Io-cases (os.open_answer s.calls path)) [
    | inr (e, o) ↦ absurd (grind arith)
    | inl (fd, o) ↦
        let opened = Event.open_file path (done fd) ∷ s.calls in
        elim (Io-cases (os.fstat_answer opened fd)) [
          | inr (e, f) ↦ absurd (grind arith)
          | inl (before, f) ↦ elim (Io-cases (os.map_answer (Event.fstat fd ∷ opened) fd false)) [
            | inr (e, a) ↦ absurd (grind arith)
            | inl (m', a) ↦
                let mapped = Event.map_file fd false (done m') ∷ Event.fstat fd ∷ opened in
                elim (Io-cases (os.fstat_answer mapped fd)) [
                  | inr (e, g) ↦ absurd (grind arith)
                  | inl (after, g) ↦
                      let same : m' ≡ m = grind arith in
                      (
                        fd,
                        before,
                        after,
                        o,
                        (f, rw (← same) a, rw (← same) g),
                        grind arith,
                        grind arith,
                        grind arith,
                        grind arith,
                      )
                ]
          ]
        ]
  ]

  -- The state behind the second look at the file.
  abbrev pub looked_twice : ℕ → State → State
  looked_twice fd s = record s {
    calls =
        Event.fstat fd
        ∷ Event.map_file fd false (done m)
        ∷ Event.fstat fd
        ∷ Event.open_file path (done fd)
        ∷ s.calls;
  }

  -- A file that is the same in front of the mapping and behind it opens, with this mapping, exactly
  -- where the advice on the mapping succeeds.
  pub open_with_advice-of_SameFile :
      (advice : MmapAdvice) (s : State) (same : SameFile s.calls)
      → m.len ≤ u64_max
      → ((open_with_advice os path advice s).0 ≡ ok m)
        ↔ ((advise os m advice (looked_twice same.0 s)).0 ≡ ok tt)
  unfolding open_with_advice
  open_with_advice-of_SameFile advice s (fd, before, after, o, (f, a, g), d, i, l, l') small =
      grind arith

  small_mapping :
      (advice : MmapAdvice) (s : State)
      → SameFile s.calls
      → (open_with_advice os path advice s).0 ≡ ok m
      → m.len ≤ u64_max
  unfolding open_with_advice
  small_mapping advice s (fd, before, after, o, (f, a, g), d, i, l, l') h = grind arith

  -- A file opens with a mapping exactly where it is the same file, of the mapping's length, in front of
  -- the mapping and behind it, the length is a `u64`, and it is 0 or the system takes the advice.
  pub open_with_advice_iff :
      (advice : MmapAdvice) (s : State)
      → ((open_with_advice os path advice s).0 ≡ ok m) ↔ (
          (same : SameFile s.calls) × (m.len ≤ u64_max)
          × IsAdvised os m advice (looked_twice same.0 s).calls)
  open_with_advice_iff advice s = (
    λ h.
        let same = open_with_advice-SameFile advice s h in
        let small = small_mapping advice s same h in
        let advised = (open_with_advice-of_SameFile advice s same small).0 h in
        (same, small, (advise_iff os m (looked_twice same.0 s) advice).0 advised),
    λ (same, small, advised).
        (open_with_advice-of_SameFile advice s same small).1
          ((advise_iff os m (looked_twice same.0 s) advice).1 advised),
  )
