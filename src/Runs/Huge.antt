-- ===== src/Runs/Huge.antt =====
-- Vectors of three numbers: on huge pages, on a `Vec`, and where neither can be had.
use kernelkit.Common.{ℕ, List, [], ◌∷◌, ◌≡◌, ◌≤◌, ◌<◌, ◌↔◌, ◌%◌, ◌+◌, refl, Option, some, arith}
use kernelkit.Errors.{ok, err, allocation_failed, allocation_overflow}
use kernelkit.Defaults.{defaults}
use kernelkit.Lengths.{TypeInfo, usize_max}
use kernelkit.Hugepages.Allocation
use kernelkit.Hugepages.Allocation.{align_up, init}
use kernelkit.Hugepages.Bounds.{align_up_iff}
use kernelkit.Hugepages.Vector.{HugePageVec, standard, huge, try_new, new_fallible}
use kernelkit.Hugepages.Refinement.{Refines, store_all, list_all}
use kernelkit.Hugepages.Constructors.{by_try_new, construct-err, construct-Refines}
use kernelkit.Runs.Systems.{willing, plain, reluctant, start}

abbrev words : TypeInfo
words = record { size = 8; align = 8; type_name = "u64" }

abbrev sevens : ℕ → Option ℕ
sevens _ = some 7

align_up_iff_example :
    (align_up 5000 4096 ≡ some 8192)
    ↔ ((8192 % 4096 ≡ 0) × (5000 ≤ 8192) × (8192 < 5000 + 4096) × (8192 ≤ usize_max))
align_up_iff_example = align_up_iff 5000 4096 8192 (omega arith) (omega arith)

abbrev on_vec : HugePageVec ℕ
on_vec = standard (7 ∷ 7 ∷ 7 ∷ [])

abbrev on_huge : HugePageVec ℕ
on_huge = huge (record {
  ptr = 4096;
  count = 3;
  map_len = 2097152;
  slots = Allocation.write 2 7 (Allocation.write 1 7 (Allocation.write 0 7 Allocation.empty_slots));
})

huge_made : (try_new willing words sevens 3 start).0 ≡ ok on_huge
unfolding try_new Allocation.new kernelkit.Lengths.checked_len align_up init
huge_made = refl

vec_made : (new_fallible plain words sevens 3 start).0 ≡ ok on_vec
unfolding new_fallible Allocation.new kernelkit.Lengths.checked_len align_up defaults
vec_made = refl

refused : (try_new reluctant words sevens 3 start).0 ≡ err (allocation_failed 3 "u64")
unfolding try_new Allocation.new kernelkit.Lengths.checked_len align_up
refused = refl

overflowed : (new_fallible reluctant words sevens 3 start).0 ≡ err (allocation_overflow 3 "u64")
unfolding new_fallible Allocation.new kernelkit.Lengths.checked_len align_up
overflowed = refl

construct-err_example : allocation_failed 3 "u64" ≡ allocation_failed 3 words.type_name
construct-err_example =
    construct-err reluctant words sevens 3 start by_try_new (allocation_failed 3 "u64") refused

-- The second store is past the end.
construct-Refines_example :
    (xs : List ℕ) × (defaults sevens 0 3 ≡ ok xs)
    × Refines (store_all ((1, 5) ∷ (3, 6) ∷ []) on_huge) (list_all ((1, 5) ∷ (3, 6) ∷ []) xs)
construct-Refines_example =
    construct-Refines willing words sevens 3 start by_try_new on_huge ((1, 5) ∷ (3, 6) ∷ [])
      huge_made
