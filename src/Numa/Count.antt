-- ===== src/Numa/Count.antt =====
-- src/numa.rs: the node count, the validation of a node, and the cell that keeps the library.
use kernelkit.Common.{
  ℕ, List, ◌≤◌, ◌<◌, ◌≡◌, ◌↔◌, ◌+◌, ◌*◌, ◌/◌, ◌%◌, ◌^◌, if◌then◌else◌, ◌==◌, length, get_elem?,
  one_word, Option, some, arith,
}
use kernelkit.Errors.{Error, ok, err, invalid_node}
use kernelkit.Machine.{Library, Os, State}
use kernelkit.Numa.Library.{load}
use kernelkit.Lengths.{TypeInfo, usize_max, checked_len, checked_len_iff}
use kernelkit.Defaults.{defaults, length-defaults}
use kernelkit.Numa.Placement.{alloc_on_node}
use kernelkit.Numa.Nodes.{nodemask_for_node, node_count, validate_node}

-- The mask of a node has one word for each 64 nodes up to it; the word of the node holds its bit,
-- every other word is 0, and the number of bits that the kernel is told covers the node and fits in
-- the words.
pub nodemask_for_node_lem :
    (node word : ℕ)
    → word < node / 64 + 1
    → let (mask, maxnode) = nodemask_for_node node in
      (length mask ≡ node / 64 + 1)
      × (get_elem? mask word ≡ some (if word == node / 64 then 2 ^ (node % 64) else 0))
      × (node < maxnode)
      × (maxnode ≤ length mask * 64)
unfolding nodemask_for_node
nodemask_for_node_lem node word below =
    let (long, holds) = one_word (node / 64 + 1) (node / 64) word (2 ^ (node % 64)) below in
    (long, holds, omega arith, omega (arith, long))

module _ (os : Os) where
  -- A machine has at least one node, whatever the library and sysfs answer.
  pub node_count_pos : (s : State) → 1 ≤ (node_count os s).0
  unfolding node_count
  node_count_pos s = grind arith

  -- A node is valid exactly when it is below the count; the error of one that is not names the node
  -- and the count. Both leave the state that counting leaves.
  pub validate_node_lem :
      (node : ℕ) (s : State) (e : Error)
      → (((validate_node os node s).0 ≡ ok tt) ↔ (node < (node_count os s).0))
        × (((validate_node os node s).0 ≡ err e)
            ↔ (((node_count os s).0 ≤ node) × (e ≡ invalid_node node (node_count os s).0)))
        × ((validate_node os node s).1 ≡ (node_count os s).1)
  unfolding validate_node
  validate_node_lem node s e = grind arith

  validate_node_below :
      (node : ℕ) (s : State) → (validate_node os node s).0 ≡ ok tt → node < (node_count os s).0
  unfolding validate_node
  validate_node_below node s h = grind arith

  -- Once the library has been looked for with success, a later look gives the same answer and makes
  -- no call; the cell of a state in which it is filled stays as it is.
  pub load_stable :
      (s : State) (library : Option Library)
      → (load os s).0 ≡ ok library
      → load os (load os s).1 ≡ load os s
  unfolding load
  load_stable s library h = grind arith

fits : (T : TypeInfo) (count n : ℕ) → checked_len T count ≡ ok n → count * T.size ≤ usize_max
fits T count n h = ((checked_len_iff T count n).0 h).1

module _ (os : Os) {A : Type 0} (T : TypeInfo) (default : ℕ → Option A) where
  -- What is allocated on a node holds the default values, as many as were asked for; the node is below
  -- the count and the length in bytes fits in a `usize`.
  pub alloc_on_node_sound :
      (count node : ℕ) (s : State) (values : List A)
      → (alloc_on_node os T default count node s).0 ≡ ok values
      → (defaults default 0 count ≡ ok values)
        × (length values ≡ count)
        × (node < (node_count os s).0)
        × (count * T.size ≤ usize_max)
  unfolding alloc_on_node
  alloc_on_node_sound count node s values h =
      grind (arith, validate_node_below os node s, length-defaults default 0 count, fits T count)
