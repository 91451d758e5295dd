-- ===== src/Numa/Allocated.antt =====
-- src/numa.rs: exactly when `alloc_on_node` gives a vector.
use kernelkit.Common.{ℕ, List, ◌≤◌, ◌<◌, ◌*◌, ◌≡◌, ◌⊎◌, Option}
use kernelkit.Errors.{ok, done}
use kernelkit.Lengths.{TypeInfo, usize_max}
use kernelkit.Defaults.{defaults}
use kernelkit.Machine.{Event, Os, State, note}
use kernelkit.Numa.Nodes.{node_count}
use kernelkit.Numa.Placement.{migrate_to_node}

module _ (os : Os) {A : Type 0} (T : TypeInfo) (default : ℕ → Option A) (count node : ℕ) (s : State)
    (values : List A) where
  abbrev counted : State
  counted = (node_count os s).1

  -- The node is below the count, the length in bytes fits in a `usize`, the buffer is given, no default
  -- panics, and the pages of a vector that is not empty are migrated.
  abbrev pub IsAllocated : Type 0
  IsAllocated =
      (node < (node_count os s).0)
      × (count * T.size ≤ usize_max)
      × (defaults default 0 count ≡ ok values)
      × ((ptr : ℕ) × (os.reserve_answer counted.calls T.size count ≡ done ptr)
          × ((count ≡ 0)
              ⊎ ((migrate_to_node os ptr (count * T.size) node
                    (note (Event.reserve count) counted)).0
                  ≡ ok tt)))
