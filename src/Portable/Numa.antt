-- ===== src/Portable/Numa.antt =====
-- src/numa.rs, and `pin_to_core`, `read_irq_affinity` and `pin_to_numa_node` of src/affinity.rs, where
-- the system is not Linux: there is one node, and nothing is pinned, bound or migrated.
use kernelkit.Common.{
  ℕ, ◌*◌, ◌≤◌, ◌≡◌, ◌↔◌, inl, inr, arith, List, [], Option, none, ltb, ◌==◌, if◌then◌else◌,
}
use kernelkit.Errors.{Result, ok, err, Io, done, failed, invalid_node, system, custom, other, shown}
use kernelkit.Lengths.{TypeInfo, usize_max, checked_len}
use kernelkit.Defaults.{defaults}
use kernelkit.Machine.{Os, State, M, pure, fail, lift, ◌>>=◌, ◌>>◌, call}
use kernelkit.Machine.Syscalls as Sys
use kernelkit.Mmap.Identity.{Io-cases}

-- `current_node`
unfoldable pub current_node : Option ℕ
current_node = none

-- `node_count`
unfoldable pub node_count : ℕ
node_count = 1

-- `validate_node`
unfoldable pub validate_node : ℕ → Result (Unit {0})
unfolding node_count
validate_node node = if ltb node node_count then ok tt else err (invalid_node node node_count)

-- `pin_to_node`
unfoldable pub pin_to_node : ℕ → Result (Unit {0})
unfolding validate_node
pin_to_node node = validate_node node

-- `bind_memory_to_node`
unfoldable pub bind_memory_to_node : ℕ → ℕ → ℕ → Result (Unit {0})
bind_memory_to_node ptr len node = ok tt

-- `migrate_to_node`: the test of the length changes nothing.
unfoldable pub migrate_to_node : ℕ → ℕ → ℕ → M (Unit {0})
unfolding validate_node
migrate_to_node ptr byte_len node = do
  lift (validate_node node)
  if byte_len == 0 then pure tt else pure tt

-- `pin_to_core`, `read_irq_affinity` and `pin_to_numa_node`
unfoldable pub pin_to_core : ℕ → Result (Unit {0})
pin_to_core core_id = ok tt

unfoldable pub read_irq_affinity : ℕ → Result (List ℕ)
read_irq_affinity irq = ok []

unfoldable pub pin_to_numa_node : ℕ → Result (Unit {0})
pin_to_numa_node node = ok tt

module _ (os : Os) {A : Type 0} (T : TypeInfo) (default : ℕ → Option A) where
  -- `map_err` on the error of `try_reserve`, whose text is shown.
  abbrev reserved : Io ℕ → M ℕ
  reserved (done ptr) = pure ptr
  reserved (failed e) = fail (system "numa alloc try_reserve" (custom other (shown e)))

  -- `alloc_on_node`
  unfoldable pub alloc_on_node : ℕ → ℕ → M (List A)
  unfolding validate_node
  alloc_on_node count node = do
    lift (validate_node node)
    _ ← lift (checked_len T count)
    answer ← call (Sys.reserve os T.size count)
    _ ← reserved answer
    lift (defaults default 0 count)

  -- Where the system is not Linux, an allocation on a node succeeds exactly on node 0, where the length
  -- in bytes fits in a `usize`, the buffer is given and no default panics, and it is the default values.
  pub alloc_on_node_iff :
      (count node : ℕ) (s : State) (values : List A)
      → ((alloc_on_node count node s).0 ≡ ok values) ↔ (
          (node ≡ 0)
          × (count * T.size ≤ usize_max)
          × ((ptr : ℕ) × (os.reserve_answer s.calls T.size count ≡ done ptr))
          × (defaults default 0 count ≡ ok values))
  unfolding alloc_on_node checked_len
  alloc_on_node_iff count node s values = elim (Io-cases (os.reserve_answer s.calls T.size count)) [
    | inl (ptr, e) ↦ (
      λ h. (grind arith, grind arith, (ptr, e), grind arith),
      λ (first, fits, _, made). grind arith,
    )
    | inr (io, e) ↦ (λ h. absurd (grind arith), λ (_, _, (_, e'), _). absurd (grind arith))
  ]
