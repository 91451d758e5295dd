-- ===== src/Mmap/Block.antt =====
-- src/mmap.rs: `MmapBlock`, an owned anonymous mapping.
use kernelkit.Common.{ℕ, zero, suc, Bool, false, Option, none, some, ◌==◌, if◌then◌else◌}
use kernelkit.Errors.{Result, ok, err, panicked, null_pointer, system}
use kernelkit.Machine.{huge_page, Os, State, M, pure, fail, ◌>>=◌, ◌>>◌, call, ignore}
use kernelkit.Machine.Syscalls as Sys
use kernelkit.Numa.Placement.{bind_memory_to_node}

-- `MmapBlock`
pub record MmapBlock : Type 0 where
  pub ptr : ℕ
  pub len : ℕ
  pub numa_node : Option ℕ

-- `MmapBlock::as_ptr` and `as_mut_ptr`
unfoldable pub as_ptr : MmapBlock → ℕ
as_ptr block = block.ptr

-- `MmapBlock::len`
unfoldable pub len : MmapBlock → ℕ
len block = block.len

-- `MmapBlock::numa_node`
unfoldable pub numa_node : MmapBlock → Option ℕ
numa_node block = block.numa_node

-- `MmapBlock::is_empty`
unfoldable pub is_empty : MmapBlock → Bool
is_empty block = block.len == 0

module _ (os : Os) where
  -- `NonNull::new` on what `mmap` returned; `MAP_FAILED` is the system's error.
  abbrev mapped : Option ℕ → M ℕ
  mapped none s = (err (system "mmap" (os.last_error s.calls)), s)
  mapped (some zero) s = (err null_pointer, s)
  mapped (some (suc p)) s = (ok (suc p), s)

  -- `map_region`
  unfoldable pub map_region : ℕ → M ℕ
  map_region len = call (Sys.mmap_anon os len false) >>= mapped

  -- `unmap_region`
  unfoldable pub unmap_region : ℕ → ℕ → State → State
  unmap_region ptr len s = Sys.munmap os ptr len s

  -- `advise_hugepage`
  unfoldable pub advise_hugepage : ℕ → ℕ → M (Unit {0})
  advise_hugepage ptr len =
      call (Sys.madvise os ptr len huge_page) >>= Sys.check os "madvise(HUGEPAGE)"

  -- `MmapBlock::new`
  unfoldable pub new : ℕ → M MmapBlock
  unfolding map_region advise_hugepage
  new len = if len == 0 then fail null_pointer else do
    ptr ← map_region len
    ignore (advise_hugepage ptr len)
    pure (record { ptr = ptr; len = len; numa_node = none })

  -- `bind_to_numa_node`
  unfoldable pub bind_to_numa_node : ℕ → ℕ → ℕ → M (Unit {0})
  bind_to_numa_node ptr len node = bind_memory_to_node os ptr len node

  -- The error of the binding is passed on behind the unmapping.
  abbrev bound : ℕ → ℕ → Result (Unit {0}) × State → Result (Unit {0}) × State
  bound ptr len (ok u, s) = (ok u, s)
  bound ptr len (err error, s) = (err error, unmap_region ptr len s)
  bound ptr len (panicked, s) = (panicked, s)

  -- `MmapBlock::new_on_node`
  unfoldable pub new_on_node : ℕ → ℕ → M MmapBlock
  unfolding map_region advise_hugepage unmap_region bind_to_numa_node
  new_on_node len node = if len == 0 then fail null_pointer else do
    ptr ← map_region len
    ignore (advise_hugepage ptr len)
    λ s. bound ptr len (bind_to_numa_node ptr len node s)
    pure (record { ptr = ptr; len = len; numa_node = some node })

  -- `Drop for MmapBlock`
  unfoldable pub drop : MmapBlock → State → State
  unfolding unmap_region
  drop block s = unmap_region block.ptr block.len s
