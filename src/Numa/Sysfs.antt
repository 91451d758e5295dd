-- ===== src/Numa/Sysfs.antt =====
-- src/numa.rs: `sysfs_node_count`, from the list of nodes that are online or else from the entries
-- of the directory.
use kernelkit.Common.{
  ℕ, zero, suc, ◌+◌, min, max, Bool, true, ◌&&◌, List, [], ◌∷◌, Option, none, some, drop,
  if◌then◌else◌,
}
use mathlib.Core.List.{foldl}
use kernelkit.Errors.{Io, done, failed}
use kernelkit.Text.{Text, codes, trim, split, split_once, starts_with, is_ascii_digit, parse_u64}
use kernelkit.Lengths.{usize_max}
use kernelkit.Machine.{Os, State}
use kernelkit.Machine.Syscalls as Sys

-- One more index of the list under `online`: the end of a range `a-b`, or a single number.
unfoldable pub range_end : Text → Option ℕ
range_end range = elim (split_once b'-' range) [
  | some (_, end) ↦ parse_u64 end
  | none ↦ parse_u64 range
]

-- `max_node.map_or(idx, |m| m.max(idx))`, where the index could be parsed.
abbrev pub max_index : Option ℕ → Option ℕ → Option ℕ
max_index acc none = acc
max_index none (some idx) = some idx
max_index (some m) (some idx) = some (max m idx)

-- The largest node that `/sys/devices/system/node/online` names.
unfoldable pub parse_online : Text → Option ℕ
unfolding range_end
parse_online content =
    foldl (λ acc range. max_index acc (range_end (trim range))) none (split b',' (trim content))

all_digits : Text → Bool
all_digits [] = true
all_digits (c ∷ s) = is_ascii_digit c && all_digits s

-- `node` with digits behind it.
unfoldable pub is_node_name : Text → Bool
unfolding all_digits
is_node_name name = starts_with name (codes "node") && all_digits (drop 4 name)

unfoldable pub count_node_names : List Text → ℕ
unfolding is_node_name
count_node_names [] = 0
count_node_names (name ∷ names) =
    if is_node_name name then suc (count_node_names names) else count_node_names names

abbrev positive : ℕ → Option ℕ
positive zero = none
positive (suc n) = some (suc n)

module _ (os : Os) where
  -- The second half of `sysfs_node_count`: the entries of the directory.
  abbrev entries_count : Io (List Text) × State → Option ℕ × State
  entries_count (done names, s) = (positive (count_node_names names), s)
  entries_count (failed e, s) = (none, s)

  abbrev count_entries : State → Option ℕ × State
  count_entries s = entries_count (Sys.list_names os "/sys/devices/system/node/" s)

  -- `max_idx.saturating_add(1)` of the list, and the directory where that names no node.
  abbrev after_online : Option ℕ → State → Option ℕ × State
  after_online (some max_idx) s = (some (min (max_idx + 1) usize_max), s)
  after_online none s = count_entries s

  abbrev from_online : Io Text × State → Option ℕ × State
  from_online (done content, s) = after_online (parse_online content) s
  from_online (failed e, s) = count_entries s

  -- `sysfs_node_count`
  unfoldable pub sysfs_node_count : State → Option ℕ × State
  unfolding parse_online count_node_names
  sysfs_node_count s = from_online (Sys.read_text os "/sys/devices/system/node/online" s)
