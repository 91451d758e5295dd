-- ===== src/Runs/Threads.antt =====
-- Two threads in `LinuxNuma::load`: both find the cell empty, the first fills it, and the second, which
-- waited for the lock, finds the value there.
use kernelkit.Common.{
  ℕ, ◌+◌, ◌≤◌, ◌≡◌, refl, List, [], ◌∷◌, Option, none, some, arith, ℕ_discrete, update,
}
use kernelkit.Errors.{ok}
use kernelkit.Machine.{Library, Os}
use kernelkit.Numa.Library.{try_load, try_candidates, load_from_name}
use kernelkit.Numa.Threads.{
  Pc, first, waiting, second, loading, setting, getting, leaving, returned, System, Step, Reach,
  here, later, pick, missing, acquire, found_locked, missing_locked, load, set, get, release,
}
use kernelkit.Numa.Threads.Facts.{handles_in, pending_in}
use kernelkit.Numa.Threads.Outcomes.{Outcome, load_agreement, load-one_library}
use kernelkit.Numa.Threads.Progress.{load_progress}
use kernelkit.Numa.Handles.{Kept, perform_all, count_nodes, pin, allocate, perform_all-Kept}
use kernelkit.Lengths.{TypeInfo}
use kernelkit.Runs.Systems.{willing, start}

abbrev words : TypeInfo
words = record { size = 8; align = 8; type_name = "u64" }

abbrev sevens : ℕ → Option ℕ
sevens _ = some 7

abbrev linked : Os
linked = record willing { load_answer = λ _ _. none }

abbrev libnuma : Option Library
libnuma = some (record { name = "libnuma.so.1" })

answer : (try_load linked start).0 ≡ ok libnuma
unfolding try_candidates load_from_name
answer = refl

-- The latest move first.
abbrev places : List (ℕ × Pc) → ℕ → Pc
places [] = λ _. first
places ((i, p) ∷ moves) = update (places moves) i p

abbrev half : List (ℕ × Pc)
half = (0, setting libnuma) ∷ (0, loading) ∷ (0, second) ∷ (1, waiting) ∷ (0, waiting) ∷ []

abbrev whole : List (ℕ × Pc)
whole =
    (1, returned (ok libnuma))
    ∷ (1, leaving (ok libnuma))
    ∷ (1, second)
    ∷ (0, returned (ok libnuma))
    ∷ (0, leaving (ok libnuma))
    ∷ (0, getting)
    ∷ half

abbrev in_the_middle : System
in_the_middle = record {
  shared = record { cell = none; holder = some 0; live = 1 };
  pc = places half;
}

abbrev at_the_end : System
at_the_end = record {
  shared = record { cell = some libnuma; holder = none; live = 1 };
  pc = places whole;
}

middle : Reach linked 2 5 in_the_middle
unfolding ℕ_discrete
middle =
    later
      (later
        (later
          (later (later here (pick 0 (omega arith) (missing refl)))
            (pick 1 (omega arith) (missing refl)))
          (pick 0 (omega arith) (acquire refl)))
        (pick 0 (omega arith) (missing_locked refl)))
      (pick 0 (omega arith) (load start answer))

last : Reach linked 2 11 at_the_end
unfolding ℕ_discrete
last =
    later
      (later
        (later
          (later
            (later (later middle (pick 0 (omega arith) (set refl)))
              (pick 0 (omega arith) (get refl)))
            (pick 0 (omega arith) release))
          (pick 1 (omega arith) (acquire refl)))
        (pick 1 (omega arith) (found_locked refl)))
      (pick 1 (omega arith) release)

load_agreement_example : Outcome linked libnuma (ok libnuma)
unfolding ℕ_discrete
load_agreement_example = load_agreement last 0 1 libnuma (ok libnuma) refl refl

load-one_library_example : (1 ≡ handles_in none + pending_in (some 0) in_the_middle.pc) × (1 ≤ 1)
load-one_library_example = load-one_library middle

load_progress_example : (t : System) × Step linked 2 in_the_middle t
unfolding ℕ_discrete
load_progress_example = load_progress middle 1 (omega arith) tt

-- One node is counted, and the thread pinned to it, with the library; another library is not opened.
perform_all-Kept_example :
    Kept (perform_all linked words sevens (count_nodes ∷ pin 1 ∷ allocate 3 1 ∷ []) start)
perform_all-Kept_example =
    perform_all-Kept linked words sevens (count_nodes ∷ pin 1 ∷ allocate 3 1 ∷ []) start refl
