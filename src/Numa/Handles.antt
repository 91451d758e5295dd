-- ===== src/Numa/Handles.antt =====
-- src/numa.rs: which shared libraries the operations leave open.
use kernelkit.Common.{
  ℕ, String, List, [], ◌∷◌, ◌++◌, Option, none, some, ◌≡◌, refl, arith, if◌then◌else◌,
}
use text.Mathlib.Text.{◌==◌}
use text.Mathlib.TextEquality.{eq_iff}
use kernelkit.Errors.{Result, ok, err, panicked}
use kernelkit.Lengths.{TypeInfo}
use kernelkit.Machine.{Library, Event, Calls, Os, State, M}
use kernelkit.Numa.Sysfs.{sysfs_node_count}
use kernelkit.Numa.Library.{
  load_from_name, candidate, try_candidates, load, max_node, has_multiple_nodes,
}
use kernelkit.Numa.Nodes.{node_count, validate_node}
use kernelkit.Numa.Placement.{
  bind_memory_to_node, pin_to_node, migrate_to_node, alloc_on_node, run_on_node, tonode_memory,
}

-- The latest of a name goes.
unfoldable pub close : String → List String → List String
close name [] = []
close name (x ∷ xs) = if name == x then xs else x ∷ close name xs

-- The libraries that were loaded and not yet closed, latest first.
abbrev pub opened : Calls → List String
opened [] = []
opened (Event.load_library name none ∷ es) = name ∷ opened es
opened (Event.close_library name ∷ es) = close name (opened es)
opened (e ∷ es) = opened es

abbrev pub name_of : Option Library → List String
name_of none = []
name_of (some library) = library.name ∷ []

abbrev pub kept : Option (Option Library) → List String
kept none = []
kept (some value) = name_of value

-- The open libraries are the one in the cell.
abbrev pub Kept : State → Type 0
Kept s = opened s.calls ≡ kept s.library

-- What a load leaves open: its library.
abbrev loaded : Result (Option Library) → List String
loaded (ok value) = name_of value
loaded (err e) = []
loaded panicked = []

abbrev Opens : State → Result (Option Library) × State → Type 0
Opens s p = (opened p.1.calls ≡ loaded p.0 ++ opened s.calls) × (p.1.library ≡ s.library)

close_first : (name : String) (names : List String) → close name (name ∷ names) ≡ names
unfolding close
close_first name names = rw ((eq_iff name name).1 refl) refl

module _ (os : Os) where
  load_from_name-Opens : (name : String) (s : State) → Opens s (load_from_name os name s)
  unfolding load_from_name
  load_from_name-Opens name s = (grind (arith, close_first), grind arith)

  candidate-Opens :
      (s : State) (p : Result (Option Library) × State) (k : M (Option Library))
      → Opens s p
      → ((t : State) → Opens t (k t))
      → Opens s (candidate os p k)
  candidate-Opens s (ok (some l), t) k (h, h') f = (h, h')
  candidate-Opens s (ok none, t) k (h, h') f = (cc (h, (f t).0), cc (h', (f t).1))
  candidate-Opens s (err e, t) k (h, h') f = (ground (arith, f t), ground (arith, f t))
  candidate-Opens s (panicked, t) k (h, h') f = (h, h')

  try_candidates-Opens : (names : List String) (s : State) → Opens s (try_candidates os names s)
  unfolding try_candidates
  try_candidates-Opens [] s = (refl, refl)
  try_candidates-Opens (name ∷ names) s =
      candidate-Opens s (load_from_name os name s) (try_candidates os names)
        (load_from_name-Opens name s) (try_candidates-Opens names)

  load-Kept : (s : State) → Kept s → Kept (load os s).1
  unfolding load
  load-Kept s h = grind (arith, try_candidates-Opens ("libnuma.so.1" ∷ "libnuma.so" ∷ []) s)

  sysfs_node_count-Kept : (s : State) → Kept s → Kept (sysfs_node_count os s).1
  unfolding sysfs_node_count
  sysfs_node_count-Kept s h = ground arith

  node_count-Kept : (s : State) → Kept s → Kept (node_count os s).1
  unfolding node_count max_node
  node_count-Kept s h = grind (arith, load-Kept, sysfs_node_count-Kept)

  validate_node-Kept : (node : ℕ) (s : State) → Kept s → Kept (validate_node os node s).1
  unfolding validate_node
  validate_node-Kept node s h = ground (arith, node_count-Kept s h)

  run_on_node-Kept : (node : ℕ) (s : State) → Kept s → Kept (run_on_node os node s).1
  unfolding run_on_node
  run_on_node-Kept node s h = grind (arith, node_count-Kept)

  tonode_memory-Kept :
      (ptr len node : ℕ) (s : State) → Kept s → Kept (tonode_memory os ptr len node s).1
  unfolding tonode_memory
  tonode_memory-Kept ptr len node s h = grind (arith, node_count-Kept)

  has_multiple_nodes-Kept : (s : State) → Kept s → Kept (has_multiple_nodes os s).1
  unfolding has_multiple_nodes max_node
  has_multiple_nodes-Kept s h = ground arith

  pin_to_node-Kept : (node : ℕ) (s : State) → Kept s → Kept (pin_to_node os node s).1
  unfolding pin_to_node
  pin_to_node-Kept node s h = grind (arith, validate_node-Kept, load-Kept, run_on_node-Kept)

  bind_memory_to_node-Kept :
      (ptr len node : ℕ) (s : State) → Kept s → Kept (bind_memory_to_node os ptr len node s).1
  unfolding bind_memory_to_node
  bind_memory_to_node-Kept ptr len node s h = ground (arith, validate_node-Kept node s h)

  migrate_to_node-Kept :
      (ptr len node : ℕ) (s : State) → Kept s → Kept (migrate_to_node os ptr len node s).1
  unfolding migrate_to_node
  migrate_to_node-Kept ptr len node s h =
      grind (arith, validate_node-Kept, load-Kept, has_multiple_nodes-Kept, tonode_memory-Kept)

  alloc_on_node-Kept :
      {A : Type 0} (T : TypeInfo) (default : ℕ → Option A) (count node : ℕ) (s : State)
      → Kept s
      → Kept (alloc_on_node os T default count node s).1
  unfolding alloc_on_node
  alloc_on_node-Kept T default count node s h =
      grind (arith, validate_node-Kept, migrate_to_node-Kept)

-- The operations of src/numa.rs that a client calls.
pub data Operation : Type 0 where
  count_nodes : Operation
  pin : (node : ℕ) → Operation
  bind : (ptr len node : ℕ) → Operation
  migrate : (ptr len node : ℕ) → Operation
  allocate : (count node : ℕ) → Operation

module _ (os : Os) {A : Type 0} (T : TypeInfo) (default : ℕ → Option A) where
  abbrev pub perform : Operation → State → State
  perform count_nodes s = (node_count os s).1
  perform (pin node) s = (pin_to_node os node s).1
  perform (bind ptr len node) s = (bind_memory_to_node os ptr len node s).1
  perform (migrate ptr len node) s = (migrate_to_node os ptr len node s).1
  perform (allocate count node) s = (alloc_on_node os T default count node s).1

  perform-Kept : (op : Operation) (s : State) → Kept s → Kept (perform op s)
  perform-Kept count_nodes s h = node_count-Kept os s h
  perform-Kept (pin node) s h = pin_to_node-Kept os node s h
  perform-Kept (bind ptr len node) s h = bind_memory_to_node-Kept os ptr len node s h
  perform-Kept (migrate ptr len node) s h = migrate_to_node-Kept os ptr len node s h
  perform-Kept (allocate count node) s h = alloc_on_node-Kept os T default count node s h

  abbrev pub perform_all : List Operation → State → State
  perform_all [] s = s
  perform_all (op ∷ ops) s = perform_all ops (perform op s)

  -- Where the library in the cell is the only one open, it is so after any sequence of operations on
  -- nodes: none of them, failed or not, leaves another library open or closes that one.
  pub perform_all-Kept : (ops : List Operation) (s : State) → Kept s → Kept (perform_all ops s)
  perform_all-Kept [] s h = h
  perform_all-Kept (op ∷ ops) s h = perform_all-Kept ops (perform op s) (perform-Kept op s h)
