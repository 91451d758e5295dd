-- ===== src/Numa/Threads/Facts.antt =====
-- src/numa.rs: what a thread relies on where it stands in `load`, and what one step does to it.
use kernelkit.Common.{ℕ, ◌<◌, ◌≡◌, ◌≢◌, refl, Option, none, some, arith}
use kernelkit.Errors.{Result, ok, err, panicked}
use kernelkit.Machine.{Library, Os, State}
use kernelkit.Numa.Library.{try_load}
use kernelkit.Numa.Threads.{
  Pc, first, waiting, second, loading, setting, getting, leaving, returned, Shared, handles, Move,
  found, missing, acquire, found_locked, missing_locked, load, fail, set, set_late, get,
  get_missing, release,
}

abbrev pub Cell : Type 0
Cell = Option (Option Library)

abbrev pub IsFilled : Cell → Type 0
IsFilled none = ⊥
IsFilled (some value) = Unit {0}

abbrev pub handles_in : Cell → ℕ
handles_in none = 0
handles_in (some value) = handles value

-- The library of the holder that is not yet in the cell.
abbrev pub pending : Pc → ℕ
pending (setting value) = handles value
pending p = 0

abbrev pub pending_in : Option ℕ → (ℕ → Pc) → ℕ
pending_in none pc = 0
pending_in (some j) pc = pending (pc j)

-- The holder of the lock is a thread between `lock` and the drop of the guard.
abbrev pub Inside : Pc → Type 0
Inside first = ⊥
Inside waiting = ⊥
Inside (returned result) = ⊥
Inside p = Unit {0}

abbrev pub Held : ℕ → Option ℕ → (ℕ → Pc) → Type 0
Held threads none pc = Unit {0}
Held threads (some j) pc = (j < threads) × Inside (pc j)

module _ (os : Os) where
  -- A value is the one in the cell; an error is one that `try_load` gave.
  abbrev pub Justified : Cell → Result (Option Library) → Type 0
  Justified cell (ok value) = cell ≡ some value
  Justified cell (err e) = (s : State) × ((try_load os s).0 ≡ err e)
  Justified cell panicked = ⊥

  -- What holds where thread `i` stands.
  abbrev pub Fact : Cell → Option ℕ → ℕ → Pc → Type 0
  Fact cell holder i first = Unit {0}
  Fact cell holder i waiting = Unit {0}
  Fact cell holder i second = holder ≡ some i
  Fact cell holder i loading = (holder ≡ some i) × (cell ≡ none)
  Fact cell holder i (setting value) = (holder ≡ some i) × (cell ≡ none)
  Fact cell holder i getting = (holder ≡ some i) × IsFilled cell
  Fact cell holder i (leaving result) = (holder ≡ some i) × Justified cell result
  Fact cell holder i (returned result) = Justified cell result

  -- The holder alone changes, or the cell alone, and a thread that holds nothing keeps its fact.
  other_holder :
      (cell : Cell) (holder holder' : Option ℕ) (j : ℕ) (q : Pc)
      → holder ≢ some j
      → Fact cell holder j q
      → Fact cell holder' j q
  other_holder cell holder holder' j first ne f = tt
  other_holder cell holder holder' j waiting ne f = tt
  other_holder cell holder holder' j second ne f = absurd (ne f)
  other_holder cell holder holder' j loading ne f = absurd (ne f.0)
  other_holder cell holder holder' j (setting v) ne f = absurd (ne f.0)
  other_holder cell holder holder' j getting ne f = absurd (ne f.0)
  other_holder cell holder holder' j (leaving r) ne f = absurd (ne f.0)
  other_holder cell holder holder' j (returned r) ne f = f

  other_cell :
      (cell' : Cell) (holder : Option ℕ) (j : ℕ) (q : Pc)
      → holder ≢ some j
      → Fact none holder j q
      → Fact cell' holder j q
  other_cell cell' holder j first ne f = tt
  other_cell cell' holder j waiting ne f = tt
  other_cell cell' holder j second ne f = f
  other_cell cell' holder j loading ne f = absurd (ne f.0)
  other_cell cell' holder j (setting v) ne f = absurd (ne f.0)
  other_cell cell' holder j getting ne f = absurd (ne f.0)
  other_cell cell' holder j (leaving r) ne f = absurd (ne f.0)
  other_cell cell' holder j (returned (ok v)) ne f = cc
  other_cell cell' holder j (returned (err e)) ne f = f
  other_cell cell' holder j (returned panicked) ne f = f

  -- A step of thread `i` keeps the fact of any other thread.
  pub Move-others :
      {i : ℕ} {m m' : Shared} {p p' : Pc}
      → Move os i m p m' p'
      → Fact m.cell m.holder i p
      → (j : ℕ) (q : Pc) → i ≢ j
      → Fact m.cell m.holder j q
      → Fact m'.cell m'.holder j q
  Move-others {i} {m} (acquire e) f j q ne g = other_holder m.cell m.holder (some i) j q (λ h. cc) g
  Move-others {i} {m} (release) f j q ne g =
      other_holder m.cell m.holder none j q (λ h. ne (ground arith)) g
  Move-others {i} {m} (set {value} e) f j q ne g =
      other_cell (some value) m.holder j q (λ h. ne (ground arith)) (rw e at g)
  Move-others mv f j q ne g = g

  -- A step of thread `i` establishes its next fact.
  pub Move-own :
      {i : ℕ} {m m' : Shared} {p p' : Pc}
      → Move os i m p m' p'
      → Fact m.cell m.holder i p
      → Fact m'.cell m'.holder i p'
  Move-own (found e) f = e
  Move-own (missing e) f = tt
  Move-own (acquire e) f = refl
  Move-own (found_locked e) f = (f, e)
  Move-own (missing_locked e) f = (f, e)
  Move-own (load s e) f = f
  Move-own (fail s e) f = (f.0, (s, e))
  Move-own (set e) f = (f.0, tt)
  Move-own (set_late e) f = cc
  Move-own (get e) f = (f.0, e)
  Move-own (get_missing e) f = absurd (rw e at f.1)
  Move-own release f = f.1
