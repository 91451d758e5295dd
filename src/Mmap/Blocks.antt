-- ===== src/Mmap/Blocks.antt =====
-- src/mmap.rs: what a block shows, against what was asked for.
use kernelkit.Common.{
  List, ◌+◌, ◌*◌, ◌/◌, ◌<◌, ◌≤◌, ◌↔◌, length, IsIn, one_bit, ℕ, ◌≡◌, ◌≢◌, false, Option, none, some,
  arith, pos, ◌∷◌,
}
use kernelkit.Errors.{ok}
use kernelkit.Machine.{Os, State, Event, Calls, note, huge_page}
use kernelkit.Numa.Nodes.{nodemask_for_node, validate_node}
use kernelkit.Numa.Placement.{bind_memory_to_node}
use kernelkit.Numa.Count.{nodemask_for_node_lem}
use kernelkit.Mmap.Block
use kernelkit.Mmap.Block.{MmapBlock, as_ptr, is_empty, numa_node}

-- A block of a length and a node: it is not empty and lies at an address that is not 0.
abbrev pub IsBlock : ℕ → Option ℕ → MmapBlock → Type 0
IsBlock n node b = (Block.len b ≡ n) × (numa_node b ≡ node) × (is_empty b ≡ false) × (as_ptr b ≢ 0)

module _ (os : Os) where
  -- A block that is returned has the length that was asked for, is on no node, is not empty and lies
  -- at an address that is not 0.
  pub new-IsBlock :
      (n : ℕ) (s : State) (b : MmapBlock) → (Block.new os n s).0 ≡ ok b → IsBlock n none b
  unfolding Block.new Block.len is_empty numa_node as_ptr
  new-IsBlock n s b h = (grind arith, grind arith, grind arith, λ e. grind arith)

  -- The last call of a run binds memory by a mask, and is answered 0; any other node is not in the mask.
  abbrev pub IsBound : ℕ → ℕ → ℕ → ℕ → State → Type 0
  IsBound ptr n node other s =
      (before : Calls) × (mask : List ℕ) × (maxnode : ℕ) × (s.calls
        ≡ Event.mbind ptr n mask maxnode ∷ before)
      × (os.mbind_answer before ptr n mask maxnode ≡ pos 0)
      × (IsIn mask other ↔ (other ≡ node))
      × (node < maxnode)
      × (maxnode ≤ length mask * 64)

  nodemask_for_node-IsIn : (node other : ℕ) → IsIn (nodemask_for_node node).0 other ↔ (other ≡ node)
  unfolding nodemask_for_node
  nodemask_for_node-IsIn node other = grind (arith, one_bit (node / 64 + 1) node other)

  bind_memory_to_node-IsBound :
      (ptr n node other : ℕ) (s : State)
      → (bind_memory_to_node os ptr n node s).0 ≡ ok tt
      → IsBound ptr n node other (bind_memory_to_node os ptr n node s).1
  unfolding bind_memory_to_node
  bind_memory_to_node-IsBound ptr n node other s h =
      let (long, holds, above, below) = nodemask_for_node_lem node 0 (omega arith) in
      (
        (validate_node os node s).1.calls,
        (nodemask_for_node node).0,
        (nodemask_for_node node).1,
        grind arith,
        grind arith,
        nodemask_for_node-IsIn node other,
        above,
        below,
      )

  -- The state in which a block is bound.
  abbrev made : ℕ → ℕ → State → State
  made ptr n s = note (Event.madvise ptr n huge_page) (note (Event.mmap_anon n false (some ptr)) s)

  new_on_node-bind :
      (n node : ℕ) (s : State) (b : MmapBlock)
      → (Block.new_on_node os n node s).0 ≡ ok b
      → ((bind_memory_to_node os b.ptr n node (made b.ptr n s)).0 ≡ ok tt)
        × ((Block.new_on_node os n node s).1
            ≡ (bind_memory_to_node os b.ptr n node (made b.ptr n s)).1)
  unfolding Block.new_on_node
  new_on_node-bind n node s b h = (grind arith, grind arith)

  -- A block on a node that is returned has the length and the node that were asked for, is not empty
  -- and lies at an address that is not 0. The last call bound all of it, and was answered 0: its mask
  -- has the bit of that node and of no other, and the number of bits that it is told goes beyond the
  -- node and fits in the words of the mask.
  pub new_on_node-IsBlock :
      (n node other : ℕ) (s : State) (b : MmapBlock)
      → (Block.new_on_node os n node s).0 ≡ ok b
      → IsBlock n (some node) b × IsBound (as_ptr b) n node other (Block.new_on_node os n node s).1
  unfolding Block.new_on_node Block.len is_empty numa_node as_ptr
  new_on_node-IsBlock n node other s b h =
      let (done, same) = new_on_node-bind n node s b h in
      (
        (grind arith, grind arith, grind arith, λ e. grind arith),
        rw same (bind_memory_to_node-IsBound b.ptr n node other (made b.ptr n s) done),
      )
