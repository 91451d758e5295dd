-- ===== src/Runs/Nodes.antt =====
-- Nodes, cores and interrupts.
use kernelkit.Common.{IsIn, ℕ, ◌*◌, length, List, [], ◌∷◌, ◌≡◌, ◌↔◌, ◌<◌, refl, Option, some, pos}
use kernelkit.Errors.{ok, err}
use kernelkit.Text.{Text, codes, trim, split}
use kernelkit.Defaults.{defaults}
use kernelkit.Lengths.{TypeInfo, usize_max}
use kernelkit.Machine.{Event, note}
use kernelkit.Numa.Nodes.{validate_node}
use kernelkit.Numa.Placement.{alloc_on_node}
use kernelkit.Affinity.Pinning.{core_mask, pin_to_core, max_core}
use kernelkit.Affinity.Pinned.{pin_to_core_lem}
use kernelkit.Affinity.Ascending.{IsAscending, parse_irq_affinity-IsAscending}
use kernelkit.Common.{All}
use kernelkit.Affinity.Accepted.{IsU32, parse_irq_affinity_iff}
use kernelkit.Affinity.Refused.{Names, parse_irq_affinity-err}
use kernelkit.Affinity.Masks.{masks_of, cores_of_groups}
use mathlib.Core.List.{reverse}
use kernelkit.Affinity.IrqMask.{parse_irq_affinity, malformed_chunk}
use kernelkit.Runs.Systems.{willing, start}

abbrev words : TypeInfo
words = record { size = 8; align = 8; type_name = "u64" }

abbrev sevens : ℕ → Option ℕ
sevens _ = some 7

allocated : (alloc_on_node willing words sevens 3 1 start).0 ≡ ok (7 ∷ 7 ∷ 7 ∷ [])
unfolding alloc_on_node validate_node split kernelkit.Text.trim_end kernelkit.Text.trim_start
    kernelkit.Text.is_whitespace kernelkit.Text.split_once kernelkit.Text.from_str_radix
    kernelkit.Lengths.checked_len defaults kernelkit.Numa.Placement.migrate_to_node
allocated = refl

-- The core with the same bit of another word.
abbrev another : ℕ
another = 6

pin_to_core_lem_example :
    (((pin_to_core willing 70 start).0 ≡ ok tt) ↔ ((70 < max_core) × (pos 0 ≡ pos 0)))
    × ((pin_to_core willing 70 start).1 ≡ note (Event.sched_setaffinity (core_mask 70)) start)
    × (IsIn (core_mask 70) another ↔ ((another ≡ 70) × (70 < max_core)))
pin_to_core_lem_example = pin_to_core_lem willing 70 another start

two_groups : parse_irq_affinity (codes "80000000,3") ≡ ok (0 ∷ 1 ∷ 63 ∷ [])
unfolding parse_irq_affinity split kernelkit.Text.trim_end kernelkit.Text.trim_start
    kernelkit.Text.is_whitespace kernelkit.Text.from_str_radix kernelkit.Text.strip_prefix
    kernelkit.Affinity.IrqMask.has_bit
two_groups = refl

parse_irq_affinity-IsAscending_example :
    All IsU32 (0 ∷ 1 ∷ 63 ∷ [])
    × IsAscending 0 (length (split b',' (trim (codes "80000000,3"))) * 32) (0 ∷ 1 ∷ 63 ∷ [])
parse_irq_affinity-IsAscending_example =
    parse_irq_affinity-IsAscending (codes "80000000,3") (0 ∷ 1 ∷ 63 ∷ []) two_groups

parse_irq_affinity_iff_example :
    (parse_irq_affinity (codes "80000000,3") ≡ ok (0 ∷ 1 ∷ 63 ∷ [])) ↔ (
      (masks : List ℕ) × (masks_of (reverse (split b',' (trim (codes "80000000,3")))) ≡ ok masks)
      × All IsU32 (cores_of_groups 0 masks)
      × ((0 ∷ 1 ∷ 63 ∷ []) ≡ cores_of_groups 0 masks))
parse_irq_affinity_iff_example = parse_irq_affinity_iff (codes "80000000,3") (0 ∷ 1 ∷ 63 ∷ [])

-- The second group from the last is no mask.
no_mask : parse_irq_affinity (codes "x,3") ≡ err (malformed_chunk (codes "x"))
unfolding parse_irq_affinity split kernelkit.Text.trim_end kernelkit.Text.trim_start
    kernelkit.Text.is_whitespace kernelkit.Text.strip_prefix kernelkit.Text.from_str_radix
    kernelkit.Affinity.IrqMask.has_bit
no_mask = refl

parse_irq_affinity-err_example :
    Names 0 (reverse (split b',' (trim (codes "x,3")))) (malformed_chunk (codes "x"))
parse_irq_affinity-err_example =
    parse_irq_affinity-err (codes "x,3") (malformed_chunk (codes "x")) no_mask
