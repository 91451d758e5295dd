-- ===== src/Numa/Placement.antt =====
-- src/numa.rs: pinning a thread to a node, binding a mapping, and allocating or migrating memory.
use kernelkit.Common.{ℕ, List, Option, none, some, leb, ◌==◌, length, if◌then◌else◌}
use kernelkit.Errors.{Io, done, failed, system, custom, other, shown, invalid_node}
use kernelkit.Lengths.{TypeInfo, checked_len}
use kernelkit.Machine.{Library, Os, M, pure, fail, lift, ◌>>=◌, ◌>>◌, call}
use kernelkit.Machine.Syscalls as Sys
use kernelkit.Defaults.{defaults}
use kernelkit.Numa.Library.{load, has_multiple_nodes}
use kernelkit.Numa.Nodes.{i32_max, nodemask_for_node, node_count, validate_node}

module _ (os : Os) where
  -- `c_int::try_from(node)`
  abbrev try_c_int : ℕ → M ℕ
  try_c_int node =
      if leb node i32_max
      then pure node
      else call (node_count os) >>= λ available. fail (invalid_node node available)

  -- `LinuxNuma::run_on_node`
  unfoldable pub run_on_node : ℕ → M (Unit {0})
  unfolding node_count
  run_on_node node = do
    n ← try_c_int node
    result ← call (Sys.numa_run_on_node os n)
    Sys.check os "numa_run_on_node" result

  -- `LinuxNuma::tonode_memory`
  unfoldable pub tonode_memory : ℕ → ℕ → ℕ → M (Unit {0})
  unfolding node_count
  tonode_memory ptr len node = do
    n ← try_c_int node
    result ← call (Sys.numa_tonode_memory os ptr len n)
    Sys.check os "numa_tonode_memory" result

  abbrev run_by : ℕ → Option Library → M (Unit {0})
  run_by node none = pure tt
  run_by node (some library) = run_on_node node

  -- `pin_to_node`
  unfoldable pub pin_to_node : ℕ → M (Unit {0})
  unfolding validate_node load run_on_node
  pin_to_node node = do validate_node os node; library ← load os; run_by node library

  -- `bind_memory_to_node`
  unfoldable pub bind_memory_to_node : ℕ → ℕ → ℕ → M (Unit {0})
  unfolding validate_node nodemask_for_node
  bind_memory_to_node ptr len node = do
    validate_node os node
    let (nodemask, maxnode) = nodemask_for_node node
    result ← call (Sys.mbind os ptr len nodemask maxnode)
    Sys.check os "mbind" result

  abbrev migrate_by : ℕ → ℕ → ℕ → Option Library → M (Unit {0})
  migrate_by ptr byte_len node none = pure tt
  migrate_by ptr byte_len node (some library) = do
    several ← call (has_multiple_nodes os)
    if several then tonode_memory ptr byte_len node else pure tt

  -- `migrate_to_node`
  unfoldable pub migrate_to_node : ℕ → ℕ → ℕ → M (Unit {0})
  unfolding validate_node load has_multiple_nodes tonode_memory
  migrate_to_node ptr byte_len node = do
    validate_node os node
    if byte_len == 0 then pure tt else load os >>= migrate_by ptr byte_len node

  -- `map_err` on the error of `try_reserve`, whose text is shown.
  abbrev reserved : Io ℕ → M ℕ
  reserved (done ptr) = pure ptr
  reserved (failed e) = fail (system "numa alloc try_reserve" (custom other (shown e)))

  -- `alloc_on_node`
  unfoldable pub alloc_on_node : {A : Type 0} → TypeInfo → (ℕ → Option A) → ℕ → ℕ → M (List A)
  alloc_on_node T default count node = do
    validate_node os node
    _ ← lift (checked_len T count)
    answer ← call (Sys.reserve os T.size count)
    ptr ← reserved answer
    values ← lift (defaults default 0 count)
    if length values == 0 then pure values else do
      byte_len ← lift (checked_len T count)
      migrate_to_node ptr byte_len node
      pure values
