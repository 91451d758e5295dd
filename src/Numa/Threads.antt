-- ===== src/Numa/Threads.antt =====
-- src/numa.rs: `LinuxNuma::load` as several threads run it, one access to the shared cell or to the
-- lock at a time. A thread that is in `try_load` gets one of its answers; the calls that other
-- threads make meanwhile stand in the state that the answer is given at.
pub mod Facts
pub mod Invariant
pub mod Progress
pub mod Outcomes
use kernelkit.Common.{
  ℕ, zero, suc, ◌+◌, ◌-◌, ◌<◌, ◌≡◌, Bool, true, false, Option, none, some, update,
}
use kernelkit.Errors.{Error, Result, ok, err, system, custom, other, text}
use kernelkit.Machine.{Library, Os, State}
use kernelkit.Numa.Library.{try_load}

-- Where a thread stands in `load`.
pub data Pc : Type 0 where
  first : Pc  -- before the `get` without the lock
  waiting : Pc  -- before `INIT_LOCK.lock()`
  second : Pc  -- before the `get` under the lock
  loading : Pc  -- before `try_load`
  setting : (value : Option Library) → Pc  -- before `LIBRARY.set`
  getting : Pc  -- before the last `get`
  leaving : (result : Result (Option Library)) → Pc  -- before the guard is dropped
  returned : (result : Result (Option Library)) → Pc

-- What the threads share: `LIBRARY`, the holder of `INIT_LOCK`, and how many libraries are open.
pub record Shared : Type 0 where
  pub cell : Option (Option Library)
  pub holder : Option ℕ
  pub live : ℕ

abbrev pub handles : Option Library → ℕ
handles none = 0
handles (some library) = 1

abbrev pub unexpected : Error
unexpected =
    system "numa library load" (custom other (text "OnceLock initialization failed unexpectedly"))

module _ (os : Os) where
  -- One step of thread `i`. A poisoned lock is entered like any other.
  pub data Move (i : ℕ) (m : Shared) : Pc → Shared → Pc → Type 0 where
    found : {value : Option Library} → m.cell ≡ some value → Move i m first m (returned (ok value))
    missing : m.cell ≡ none → Move i m first m waiting
    acquire : m.holder ≡ none → Move i m waiting (record m { holder = some i }) second
    found_locked :
        {value : Option Library} → m.cell ≡ some value → Move i m second m (leaving (ok value))
    missing_locked : m.cell ≡ none → Move i m second m loading
    load :
        {value : Option Library} (s : State)
        → (try_load os s).0 ≡ ok value
        → Move i m loading (record m { live = m.live + handles value }) (setting value)
    fail :
        {e : Error} (s : State) → (try_load os s).0 ≡ err e → Move i m loading m (leaving (err e))
    set :
        {value : Option Library}
        → m.cell ≡ none
        → Move i m (setting value) (record m { cell = some value }) getting
    -- `set` gives the value back, which is dropped.
    set_late :
        {value cached : Option Library}
        → m.cell ≡ some cached
        → Move i m (setting value) (record m { live = m.live - handles value }) getting
    get : {value : Option Library} → m.cell ≡ some value → Move i m getting m (leaving (ok value))
    get_missing : m.cell ≡ none → Move i m getting m (leaving (err unexpected))
    release :
        {result : Result (Option Library)}
        → Move i m (leaving result) (record m { holder = none }) (returned result)

-- Indices from the number of threads on name no thread.
pub record System : Type 0 where
  pub shared : Shared
  pub pc : ℕ → Pc

module _ (os : Os) (threads : ℕ) where
  pub data Step (s : System) : System → Type 0 where
    pick :
        (i : ℕ) {m : Shared} {p : Pc}
        → i < threads
        → Move os i s.shared (s.pc i) m p
        → Step s (record { shared = m; pc = update s.pc i p })

  -- Every thread before `load`, with an empty cell.
  abbrev pub start : System
  start = record { shared = record { cell = none; holder = none; live = 0 }; pc = λ _. first }

  -- What is reached from there, and in how many steps.
  pub data Reach : ℕ → System → Type 0 where
    here : Reach 0 start
    later : {k : ℕ} {s t : System} → Reach k s → Step s t → Reach (suc k) t
