-- ===== src/Runs/Printed.antt =====
-- Texts as the kernel prints them.
use kernelkit.Common.{
  ℕ, ◌+◌, ◌*◌, ◌/◌, ◌%◌, ◌≡◌, refl, min, List, [], ◌∷◌, ◌++◌, some, arith, get_or,
}
use mathlib.Core.List.{reverse}
use kernelkit.Errors.{ok, done}
use kernelkit.Text.{codes, checked, u64_max}
use kernelkit.Text.Printed.{decimal}
use kernelkit.Lengths.{usize_max}
use kernelkit.Machine.{Os}
use kernelkit.Numa.Sysfs.{sysfs_node_count}
use kernelkit.Numa.Online.{single, span, online, sysfs_node_count-online}
use kernelkit.CpuFeatures.CacheValue.{parse_cache_value}
use kernelkit.CpuFeatures.Sizes.{unit_m}
use kernelkit.CpuFeatures.Printed.{parse_cache_value-decimal}
use kernelkit.Memory.Status.{parse_meminfo, status_of}
use kernelkit.Memory.Printed.{Entry, known, other, total, available, free, printed_file}
use kernelkit.Memory.Entries.{counters_of, look_up}
use kernelkit.Memory.Loop.{parse_meminfo-printed_file}
use kernelkit.Affinity.IrqMask.{parse_irq_affinity, has_bit}
use kernelkit.Affinity.Listed.{contains}
use kernelkit.Affinity.Printed.{Group, mask_text, parse_irq_affinity-mask_text}
use kernelkit.Runs.Systems.{willing, start}

-- `0-3,8` and a line feed.
abbrev five_nodes : Os
five_nodes = record willing { read_text_answer = λ _ _. done (online (span 0 3) (single 8 ∷ [])) }

sysfs_node_count-online_example :
    (sysfs_node_count five_nodes start).0 ≡ some (min (8 + 1) usize_max)
sysfs_node_count-online_example =
    sysfs_node_count-online five_nodes (span 0 3) (single 8 ∷ []) start refl (omega arith)

-- `3m` and a line feed.
parse_cache_value-decimal_example :
    parse_cache_value ((decimal 3 ++ codes "m") ++ 10 ∷ []) ≡ checked usize_max (3 * (1024 * 1024))
unfolding kernelkit.Text.to_ascii_uppercase kernelkit.Text.is_whitespace
parse_cache_value-decimal_example =
    parse_cache_value-decimal 3 unit_m (codes "m") (10 ∷ []) refl (refl, tt)

abbrev meminfo : List Entry
meminfo =
    known total 7 16384
    ∷ known free 8 512
    ∷ other (codes "SwapCached:  1 kB")
    ∷ known available 1 4096
    ∷ []

parse_meminfo-printed_file_example :
    parse_meminfo (printed_file meminfo) ≡ status_of (counters_of (λ f. look_up f meminfo))
unfolding kernelkit.Text.starts_with
parse_meminfo-printed_file_example =
    parse_meminfo-printed_file meminfo (ground arith) (ground arith)

-- `80000000,00000003` and a line feed.
abbrev high_group : Group
high_group = record { pad = 0; mask = 0x80000000 }

abbrev low_group : Group
low_group = record { pad = 7; mask = 3 }

parse_irq_affinity-mask_text_example :
    (cores : List ℕ) × (parse_irq_affinity (mask_text high_group (low_group ∷ [])) ≡ ok cores)
    × (contains 63 cores
        ≡ has_bit (get_or (reverse {A = ℕ} (0x80000000 ∷ 3 ∷ [])) (63 / 32) 0) (63 % 32))
parse_irq_affinity-mask_text_example =
    parse_irq_affinity-mask_text high_group (low_group ∷ []) 63 (omega arith, (omega arith, tt))
      (omega arith)
