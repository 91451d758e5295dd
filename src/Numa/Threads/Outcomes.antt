-- ===== src/Numa/Threads/Outcomes.antt =====
-- src/numa.rs: what the threads that call `load` get, and what they leave open.
use kernelkit.Common.{ℕ, ◌+◌, ◌≡◌, refl, inl, inr, ◌⊎◌, ◌≤◌, Option, none, some, arith}
use mathlib.Core.Path.{subst}
use kernelkit.Errors.{Error, Result, ok, err, panicked}
use kernelkit.Machine.{Library, Os, State}
use kernelkit.Numa.Library.{try_load}
use kernelkit.Numa.Threads.{
  Pc, first, waiting, second, loading, setting, getting, leaving, returned, handles, System, Reach,
}
use kernelkit.Numa.Threads.Facts.{Cell, Justified, Inside, pending, handles_in, pending_in, Fact}
use kernelkit.Numa.Threads.Invariant.{Reach-Inv}

Inside-holder :
    (os : Os) (cell : Cell) (h : Option ℕ) (i : ℕ) (p : Pc)
    → Inside p
    → Fact os cell h i p
    → h ≡ some i
Inside-holder os cell h i first a f = absurd a
Inside-holder os cell h i waiting a f = absurd a
Inside-holder os cell h i second a f = f
Inside-holder os cell h i loading a f = f.0
Inside-holder os cell h i (setting value) a f = f.0
Inside-holder os cell h i getting a f = f.0
Inside-holder os cell h i (leaving result) a f = f.0
Inside-holder os cell h i (returned result) a f = absurd a

handles-le : (value : Option Library) → handles value ≤ 1
handles-le none = omega arith
handles-le (some library) = omega arith

open_handles-le :
    (os : Os) (cell : Cell) (h : Option ℕ) (i : ℕ) (p : Pc)
    → Fact os cell h i p
    → handles_in cell + pending p ≤ 1
open_handles-le os none h i (setting value) f = omega (arith, handles-le value)
open_handles-le os (some value) h i (setting w) f = cc
open_handles-le os none h i p f = ground arith
open_handles-le os (some value) h i p f = ground (arith, handles-le value)

holder_handles-le :
    (os : Os) (cell : Cell) (h : Option ℕ) (pc : ℕ → Pc)
    → ((i : ℕ) → Fact os cell h i (pc i))
    → handles_in cell + pending_in h pc ≤ 1
holder_handles-le os none none pc f = omega arith
holder_handles-le os (some value) none pc f = omega (arith, handles-le value)
holder_handles-le os cell (some j) pc f = open_handles-le os cell (some j) j (pc j) (f j)

-- A result that is a value, or an error that `try_load` gives in some state.
abbrev pub Outcome : Os → Option Library → Result (Option Library) → Type 0
Outcome os value result =
    (result ≡ ok value)
    ⊎ ((e : Error) × (s : State) × (result ≡ err e) × ((try_load os s).0 ≡ err e))

Justified-Outcome :
    (os : Os) (cell : Cell) (value : Option Library) (result : Result (Option Library))
    → cell ≡ some value
    → Justified os cell result
    → Outcome os value result
Justified-Outcome os cell value (ok w) h j = inl (ground arith)
Justified-Outcome os cell value (err e) h (s, j) = inr (e, s, refl, j)
Justified-Outcome os cell value panicked h j = absurd j

module _ {os : Os} {threads k : ℕ} {s : System} (r : Reach os threads k s) (i j : ℕ) where
  returned-Justified :
      (n : ℕ) (result : Result (Option Library))
      → s.pc n ≡ returned result
      → Justified os s.shared.cell result
  returned-Justified n result e =
      subst (λ (p : Pc). Fact os s.shared.cell s.shared.holder n p) e
        ((Reach-Inv os threads r).facts n)

  -- In every interleaving of `load` by any number of threads: where one thread has got a value, any
  -- other that has returned has got the same value, or an error that `try_load` gives in some state.
  pub load_agreement :
      (value : Option Library) (result : Result (Option Library))
      → s.pc i ≡ returned (ok value)
      → s.pc j ≡ returned result
      → Outcome os value result
  load_agreement value result e e' =
      Justified-Outcome os s.shared.cell value result (returned-Justified i (ok value) e)
        (returned-Justified j result e')

  -- In every interleaving, two threads between `lock` and the drop of the guard are the same.
  pub load_exclusive : Inside (s.pc i) → Inside (s.pc j) → i ≡ j
  load_exclusive a b =
      let inv = Reach-Inv os threads r in
      let held_i = Inside-holder os s.shared.cell s.shared.holder i (s.pc i) a (inv.facts i) in
      let held_j = Inside-holder os s.shared.cell s.shared.holder j (s.pc j) b (inv.facts j) in
      ground arith

module _ {os : Os} {threads k : ℕ} {s : System} (r : Reach os threads k s) where
  -- At every point of every interleaving of `load` at most one library is open: that of the cell, or
  -- one that the holder of the lock has loaded and not yet put there.
  pub load-one_library :
      (s.shared.live ≡ handles_in s.shared.cell + pending_in s.shared.holder s.pc)
      × (s.shared.live ≤ 1)
  load-one_library =
      let inv = Reach-Inv os threads r in
      let all = holder_handles-le os s.shared.cell s.shared.holder s.pc inv.facts in
      (inv.counted, omega (arith, inv.counted, all))
