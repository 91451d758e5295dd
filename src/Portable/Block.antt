-- ===== src/Portable/Block.antt =====
-- src/mmap.rs where the system is not Linux: the kernel takes no advice on huge pages and binds no
-- mapping to a node.
use kernelkit.Common.{ℕ, Bool, none, some, ◌==◌, if◌then◌else◌, ◌≡◌, ◌≢◌, refl, arith, false}
use kernelkit.Errors.{Result, ok, null_pointer}
use kernelkit.Machine.{Calls, Os, State, M, pure, fail, ◌>>=◌, ◌>>◌, ignore}
use kernelkit.Machine.Held.{Balanced}
use kernelkit.Mmap.Block.{MmapBlock, map_region}
use kernelkit.Mmap.Ownership.{its_block}

-- `advise_hugepage` and `bind_to_numa_node`
unfoldable pub advise_hugepage : ℕ → ℕ → Result (Unit {0})
advise_hugepage ptr len = ok tt

unfoldable pub bind_to_numa_node : ℕ → ℕ → ℕ → Result (Unit {0})
bind_to_numa_node ptr len node = ok tt

module _ (os : Os) where
  -- `MmapBlock::new`
  unfoldable pub new : ℕ → M MmapBlock
  unfolding map_region
  new len = if len == 0 then fail null_pointer else do
    ptr ← map_region os len
    ignore (λ s. (advise_hugepage ptr len, s))
    pure (record { ptr = ptr; len = len; numa_node = none })

  -- `MmapBlock::new_on_node`: the node is not looked at.
  unfoldable pub new_on_node : ℕ → ℕ → M MmapBlock
  unfolding map_region
  new_on_node len node = if len == 0 then fail null_pointer else do
    ptr ← map_region os len
    ignore (λ s. (advise_hugepage ptr len, s))
    pure (record { ptr = ptr; len = len; numa_node = none })

  -- A block is one new mapping, the one returned, where it is made, and nothing is left where it is
  -- not, for a system that maps nothing at address 0.
  pub new-Balanced :
      ((calls : Calls) (len : ℕ) (hugetlb : Bool) → os.mmap_anon_answer calls len hugetlb ≢ some 0)
      → (len : ℕ) (s : State) → Balanced its_block s (new len s)
  unfolding new
  new-Balanced not_null len s = grind (arith, not_null s.calls len false)

  -- A block on a node is an ordinary block, whatever the node is.
  pub new_on_node-new : (len node : ℕ) (s : State) → new_on_node len node s ≡ new len s
  unfolding new new_on_node
  new_on_node-new len node s = refl
