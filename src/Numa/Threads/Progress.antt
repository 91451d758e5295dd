-- ===== src/Numa/Threads/Progress.antt =====
-- src/numa.rs: every interleaving of `load` goes on until all threads have returned, and ends.
use kernelkit.Common.{
  ℕ, ◌+◌, ◌*◌, ◌<◌, ◌≤◌, ◌≡◌, ◌≢◌, inl, inr, refl, Option, none, some, Option-cases, String, List,
  [], ◌∷◌, arith, budget, budget-falls, budget-start,
}
use kernelkit.Errors.{Result, ok, err, panicked}
use kernelkit.Machine.{Library, Os, State, M}
use kernelkit.Numa.Library.{candidate, load_from_name, try_candidates, try_load}
use mathlib.Core.Path.{subst}
use kernelkit.Numa.Threads.{
  Pc, first, waiting, second, loading, setting, getting, leaving, returned, Shared, System, Step,
  Reach, here, later, pick, Move, found, missing, acquire, found_locked, missing_locked, load, fail,
  set, set_late, get, get_missing,
}
use kernelkit.Numa.Threads.Facts.{Inside, Held}
use kernelkit.Numa.Threads.Invariant.{Reach-Inv}

-- The steps that a thread has left, at most.
abbrev left : Pc → ℕ
left first = 7
left waiting = 6
left second = 5
left loading = 4
left (setting value) = 3
left getting = 2
left (leaving result) = 1
left (returned result) = 0

Move-left : {os : Os} {i : ℕ} {m m' : Shared} {p p' : Pc} → Move os i m p m' p' → left p' < left p
Move-left (found e) = omega arith
Move-left mv = omega arith

Step-left :
    {os : Os} {threads : ℕ} {s t : System}
    → Step os threads s t
    → budget left threads t.pc < budget left threads s.pc
Step-left {threads} {s} (pick i {p} lt mv) = budget-falls left threads s.pc i p lt (Move-left mv)

Reach-left :
    {os : Os} {threads k : ℕ} {s : System}
    → Reach os threads k s
    → k + budget left threads s.pc ≤ 7 * threads
Reach-left {threads} here = omega (arith, budget-start left threads first)
Reach-left (later r st) = omega (arith, Reach-left r, Step-left st)

-- Every interleaving of `load` has at most seven times as many steps as threads.
pub load_ends : {os : Os} {threads k : ℕ} {s : System} → Reach os threads k s → k ≤ 7 * threads
load_ends r = omega (arith, Reach-left r)

load_from_name-ne-panicked :
    (os : Os) (name : String) (s : State) → (load_from_name os name s).0 ≢ panicked
unfolding load_from_name
load_from_name-ne-panicked os name s h = grind arith

candidate-ne-panicked :
    (os : Os) (p : Result (Option Library) × State) (rest : M (Option Library))
    → p.0 ≢ panicked
    → ((s : State) → (rest s).0 ≢ panicked)
    → (candidate os p rest).0 ≢ panicked
candidate-ne-panicked os (ok none, s) rest h k = k s
candidate-ne-panicked os (ok (some library), s) rest h k = λ e. cc
candidate-ne-panicked os (err e, s) rest h k = λ x. ground (arith, k s)
candidate-ne-panicked os (panicked, s) rest h k = absurd (h refl)

try_candidates-ne-panicked :
    (os : Os) (names : List String) (s : State) → (try_candidates os names s).0 ≢ panicked
unfolding try_candidates
try_candidates-ne-panicked os [] s = λ e. cc
try_candidates-ne-panicked os (name ∷ names) s =
    candidate-ne-panicked os (load_from_name os name s) (try_candidates os names)
      (load_from_name-ne-panicked os name s) (try_candidates-ne-panicked os names)

abbrev Moves : Os → ℕ → Shared → Pc → Type 0
Moves os i m p = (m' : Shared) × (p' : Pc) × Move os i m p m' p'

-- `try_load` always answers.
answered :
    (os : Os) (i : ℕ) (m : Shared) (s : State) (r : Result (Option Library))
    → (try_load os s).0 ≡ r
    → Moves os i m loading
answered os i m s (ok value) e = (_, _, load s e)
answered os i m s (err x) e = (_, _, fail s e)
answered os i m s panicked e = absurd (try_candidates-ne-panicked os _ s e)

Moves-Inside : (os : Os) (i : ℕ) (m : Shared) (p : Pc) → Inside p → Moves os i m p
Moves-Inside os i m first a = absurd a
Moves-Inside os i m waiting a = absurd a
Moves-Inside os i m second a = elim (Option-cases m.cell) [
  | inl e ↦ (_, _, missing_locked e)
  | inr (value, e) ↦ (_, _, found_locked e)
]
Moves-Inside os i m loading a = answered os i m (record { calls = []; library = none }) _ refl
Moves-Inside os i m (setting value) a = elim (Option-cases m.cell) [
  | inl e ↦ (_, _, set e)
  | inr (cached, e) ↦ (_, _, set_late e)
]
Moves-Inside os i m getting a = elim (Option-cases m.cell) [
  | inl e ↦ (_, _, get_missing e)
  | inr (value, e) ↦ (_, _, get e)
]
Moves-Inside os i m (leaving result) a = (_, _, Move.release)
Moves-Inside os i m (returned result) a = absurd a

abbrev pub IsRunning : Pc → Type 0
IsRunning (returned result) = ⊥
IsRunning p = Unit {0}

Moves-unlocked :
    (os : Os) (i : ℕ) (m : Shared) (p : Pc) → m.holder ≡ none → IsRunning p → Moves os i m p
Moves-unlocked os i m first e a = elim (Option-cases m.cell) [
  | inl e' ↦ (_, _, missing e')
  | inr (value, e') ↦ (_, _, found e')
]
Moves-unlocked os i m waiting e a = (_, _, acquire e)
Moves-unlocked os i m second e a = Moves-Inside os i m second tt
Moves-unlocked os i m loading e a = Moves-Inside os i m loading tt
Moves-unlocked os i m (setting value) e a = Moves-Inside os i m (setting value) tt
Moves-unlocked os i m getting e a = Moves-Inside os i m getting tt
Moves-unlocked os i m (leaving result) e a = Moves-Inside os i m (leaving result) tt
Moves-unlocked os i m (returned result) e a = absurd a

Step-of_Moves :
    (os : Os) (threads : ℕ) (s : System) (i : ℕ)
    → i < threads
    → Moves os i s.shared (s.pc i)
    → (t : System) × Step os threads s t
Step-of_Moves os threads s i lt (m', p', mv) = (_, pick i lt mv)

-- No interleaving of `load` is stuck: while a thread has not returned, some thread can take a step.
pub load_progress :
    {os : Os} {threads k : ℕ} {s : System}
    → Reach os threads k s
    → (i : ℕ) → i < threads
    → IsRunning (s.pc i)
    → (t : System) × Step os threads s t
load_progress {os} {threads} {s} r i lt running = elim (Option-cases s.shared.holder) [
  | inl e ↦ Step-of_Moves os threads s i lt (Moves-unlocked os i s.shared (s.pc i) e running)
  | inr (j, e) ↦
      let held : Held threads (some j) s.pc =
        subst (λ (h : Option ℕ). Held threads h s.pc) e (Reach-Inv os threads r).held in
      Step-of_Moves os threads s j held.0 (Moves-Inside os j s.shared (s.pc j) held.1)
]
