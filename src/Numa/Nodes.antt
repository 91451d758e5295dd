-- ===== src/Numa/Nodes.antt =====
-- src/numa.rs: how many nodes there are, which of them are valid, the node of the calling thread,
-- and the mask that names one node to the kernel.
use kernelkit.Common.{
  ℕ, ◌+◌, ◌-◌, ◌/◌, ◌%◌, ◌^◌, min, max, ℤ, pos, negsuc, List, Option, none, some, ltb, set,
  replicate, if◌then◌else◌,
}
use kernelkit.Errors.{Result, ok, err, panicked, invalid_node}
use kernelkit.Machine.{Library, Event, Os, State, M, pure, fail, ◌>>=◌, call, note}
use kernelkit.Numa.Sysfs.{sysfs_node_count}
use kernelkit.Numa.Library.{load, max_node}

-- `nodemask_for_node`: the words of the mask, and the number of its bits.
unfoldable pub nodemask_for_node : ℕ → List ℕ × ℕ
nodemask_for_node node = (set (replicate (node / 64 + 1) 0) (node / 64) (2 ^ (node % 64)), node + 1)

abbrev pub i32_max : ℕ
i32_max = 2 ^ 31 - 1

module _ (os : Os) where
  -- `current_node`
  unfoldable pub current_node : State → Option ℕ × State
  current_node s = (os.getcpu_answer s.calls, note Event.getcpu s)

  abbrev at_least_one : Option ℕ → ℕ
  at_least_one none = 1
  at_least_one (some count) = max count 1

  abbrev by_sysfs : State → ℕ × State
  by_sysfs s = let (count, s') = sysfs_node_count os s in (at_least_one count, s')

  -- `max_node.saturating_add(1)` in `c_int`, then at least 1; a negative answer is no count.
  abbrev by_max_node : ℤ × State → ℕ × State
  by_max_node (pos n, s) = (max (min (n + 1) i32_max) 1, s)
  by_max_node (negsuc n, s) = by_sysfs s

  abbrev by_library : Result (Option Library) × State → ℕ × State
  by_library (ok (some library), s) = by_max_node (max_node os s)
  by_library (ok none, s) = by_sysfs s
  by_library (err e, s) = by_sysfs s
  by_library (panicked, s) = by_sysfs s

  -- `node_count`
  unfoldable pub node_count : State → ℕ × State
  unfolding load max_node sysfs_node_count
  node_count s = by_library (load os s)

  -- `validate_node`
  unfoldable pub validate_node : ℕ → M (Unit {0})
  unfolding node_count
  validate_node node = do
    available ← call node_count
    if ltb node available then pure tt else fail (invalid_node node available)
