-- ===== src/Mmap/Ownership.antt =====
-- src/mmap.rs: what each operation leaves mapped and open.
use kernelkit.Common.{ℕ, Bool, false, some, ◌≢◌, List, [], ◌∷◌, arith}
use kernelkit.Machine.{FilePath, Mapping, Calls, Os, State}
use kernelkit.Machine.Held.{
  Resource, mapping, Balanced, give_back_first, give_back_descriptor_second,
}
use kernelkit.Numa.Ownership.{bind_memory_to_node-held, bind_memory_to_node-ne-panicked}
use kernelkit.Mmap.Block
use kernelkit.Mmap.Block.{MmapBlock}
use kernelkit.Mmap.File.{MmapAdvice, open_with_advice, open_read_with_size}

abbrev its_mapping : Mapping → List Resource
its_mapping m = mapping m.ptr m.len ∷ []

abbrev pub its_block : MmapBlock → List Resource
its_block b = mapping b.ptr b.len ∷ []

module _ (os : Os) where
  -- Opening a file leaves one new mapping where it succeeds, the one that is returned, and nothing
  -- new where it fails; the file is closed in both cases.
  pub open_with_advice-Balanced :
      (path : FilePath) (advice : MmapAdvice) (s : State)
      → Balanced its_mapping s (open_with_advice os path advice s)
  unfolding open_with_advice
  open_with_advice-Balanced path advice s =
      grind (arith, give_back_first, give_back_descriptor_second)

  -- Opening a file of an expected size leaves one new mapping where it succeeds and nothing new where it
  -- fails, before the mapping or behind it; the file is closed in both cases.
  pub open_read_with_size-Balanced :
      (path : FilePath) (expected_size : ℕ) (s : State)
      → Balanced its_mapping s (open_read_with_size os path expected_size s)
  unfolding open_read_with_size
  open_read_with_size-Balanced path expected_size s =
      grind (arith, give_back_first, give_back_descriptor_second)

  -- A new block is one new mapping where it succeeds, and nothing is left where it fails, for a system
  -- that maps nothing at address 0.
  pub new-Balanced :
      ((calls : Calls) (len : ℕ) (hugetlb : Bool) → os.mmap_anon_answer calls len hugetlb ≢ some 0)
      → (len : ℕ) (s : State) → Balanced its_block s (Block.new os len s)
  unfolding Block.new
  new-Balanced not_null len s = grind (arith, not_null s.calls len false)

  -- A new block on a node is one new mapping where it succeeds; where binding it fails, it is unmapped,
  -- and nothing is left, for a system that maps nothing at address 0.
  pub new_on_node-Balanced :
      ((calls : Calls) (len : ℕ) (hugetlb : Bool) → os.mmap_anon_answer calls len hugetlb ≢ some 0)
      → (len node : ℕ) (s : State) → Balanced its_block s (Block.new_on_node os len node s)
  unfolding Block.new_on_node Block.unmap_region
  new_on_node-Balanced not_null len node s = grind (
    arith,
    not_null s.calls len false,
    give_back_first,
    bind_memory_to_node-held,
    bind_memory_to_node-ne-panicked,
  )
