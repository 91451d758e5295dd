-- ===== src/Numa/Ownership.antt =====
-- src/numa.rs: discovery and placement, against what is mapped and open and against panics.
use kernelkit.Common.{ℕ, String, List, [], ◌∷◌, Option, none, some, ◌≡◌, refl, ◌≢◌, arith}
use kernelkit.Errors.{Result, ok, err, panicked, library_load}
use kernelkit.Machine.{Library, Os, State}
use kernelkit.Machine.Held.{held}
use kernelkit.Numa.Sysfs.{sysfs_node_count}
use kernelkit.Numa.Library.{load_from_name, candidate, try_candidates, load, max_node}
use kernelkit.Numa.Nodes.{node_count, validate_node}
use kernelkit.Numa.Placement.{bind_memory_to_node}

module _ (os : Os) where
  load_from_name-held :
      (name : String) (s : State) → held (load_from_name os name s).1.calls ≡ held s.calls
  unfolding load_from_name
  load_from_name-held name s = grind arith

  candidate-held :
      (p : Result (Option Library) × State) (k : State → Result (Option Library) × State)
      → ((s : State) → held (k s).1.calls ≡ held s.calls)
      → held (candidate os p k).1.calls ≡ held p.1.calls
  candidate-held (ok (some l), s) k h = refl
  candidate-held (ok none, s) k h = h s
  candidate-held (err (library_load name source), s) k h = h s
  candidate-held (err e, s) k h = refl
  candidate-held (panicked, s) k h = refl

  try_candidates-held :
      (names : List String) (s : State) → held (try_candidates os names s).1.calls ≡ held s.calls
  unfolding try_candidates
  try_candidates-held [] s = refl
  try_candidates-held (name ∷ names) s = cc (
    candidate-held (load_from_name os name s) (try_candidates os names)
        (λ s. try_candidates-held names s),
    load_from_name-held name s,
  )

  pub load-held : (s : State) → held (load os s).1.calls ≡ held s.calls
  unfolding load
  load-held s = ground (arith, try_candidates-held ("libnuma.so.1" ∷ "libnuma.so" ∷ []) s)

  sysfs_node_count-held : (s : State) → held (sysfs_node_count os s).1.calls ≡ held s.calls
  unfolding sysfs_node_count
  sysfs_node_count-held s = ground arith

  pub node_count-held : (s : State) → held (node_count os s).1.calls ≡ held s.calls
  unfolding node_count max_node
  node_count-held s = grind (arith, load-held, sysfs_node_count-held)

  validate_node-held :
      (node : ℕ) (s : State) → held (validate_node os node s).1.calls ≡ held s.calls
  unfolding validate_node
  validate_node-held node s = ground (arith, node_count-held s)

  pub bind_memory_to_node-held :
      (ptr len node : ℕ) (s : State)
      → held (bind_memory_to_node os ptr len node s).1.calls ≡ held s.calls
  unfolding bind_memory_to_node
  bind_memory_to_node-held ptr len node s = ground (arith, validate_node-held node s)

  pub bind_memory_to_node-ne-panicked :
      (ptr len node : ℕ) (s : State) → (bind_memory_to_node os ptr len node s).0 ≢ panicked
  unfolding bind_memory_to_node validate_node
  bind_memory_to_node-ne-panicked ptr len node s h = ground arith
