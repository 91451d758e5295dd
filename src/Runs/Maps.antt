-- ===== src/Runs/Maps.antt =====
-- Blocks, files and a corpus, at concrete systems.
use kernelkit.Common.{
  ℕ, Bool, true, false, if◌then◌else◌, List, [], ◌∷◌, ◌≡◌, ◌≢◌, ◌↔◌, ◌≤◌, refl, Option, none, some,
  arith,
}
use kernelkit.Errors.{Error, ok, err, done, system, custom, invalid_data, text}
use kernelkit.Mmap.Failures.{OpenFails, open_with_advice-err}
use kernelkit.Text.{
  u64_max, codes, from_str_radix, split, split_once, is_whitespace, trim_start, trim_end,
}
use kernelkit.Machine.{FilePath, Os, Event}
use kernelkit.Machine.Held.{held}
use kernelkit.Numa.Placement.{bind_memory_to_node}
use kernelkit.Mmap.Block
use kernelkit.Mmap.Advice.{IsAdvised}
use kernelkit.Mmap.File.{MmapAdvice, advise, open_with_advice, open_read_with_size}
use kernelkit.Mmap.Ownership.{new_on_node-Balanced}
use kernelkit.Mmap.Identity.{SameFile, looked_twice, open_with_advice_iff}
use kernelkit.Corpus.Walk.{Listing, entries, entry, end, regular, directory, collect_files}
use kernelkit.Corpus.Order.{sort, insert_path, compare_path}
use kernelkit.Corpus.Mapping.{MmapCorpus, MmapRegion, map_one, map_files, open_with_limits}
use kernelkit.Corpus.Files.{Plain, files, collect_files_iff}
use kernelkit.Corpus.Limits.{WithinLimits, open_with_limits_sound}
use kernelkit.Corpus.Shuffled.{of_entries, swap}
use kernelkit.Corpus.Directory.{answer_of, open_with_limits-Shuffled}
use kernelkit.Corpus.Ownership.{open_with_limits-held}
use kernelkit.Mmap.Blocks.{IsBlock, IsBound, new_on_node-IsBlock}
use kernelkit.Mmap.Block.{MmapBlock, as_ptr}
use kernelkit.Mmap.Sized.{IsSized, open_read_with_size_iff}
use kernelkit.Runs.Systems.{willing, reluctant, start, the_file, five_bytes, five_mapped}

never_null : (b : Bool) → ◌≢◌ {A = Option ℕ} (if b then none else some 4096) (some 0)
never_null true = λ e. grind arith
never_null false = λ e. grind arith

-- The binding is refused.
new_on_node-Balanced_example : held (Block.new_on_node reluctant 4096 1 start).1.calls ≡ []
unfolding Block.new_on_node bind_memory_to_node split trim_end trim_start is_whitespace split_once
    from_str_radix
new_on_node-Balanced_example = new_on_node-Balanced reluctant (λ _ _ b. never_null b) 4096 1 start

opened : (open_with_advice willing the_file MmapAdvice.random start).0 ≡ ok five_mapped
unfolding open_with_advice advise
opened = refl

open_with_advice_iff_example :
    ((open_with_advice willing the_file MmapAdvice.random start).0 ≡ ok five_mapped) ↔ (
      (same : SameFile willing the_file five_mapped []) × (5 ≤ u64_max)
      × IsAdvised willing five_mapped MmapAdvice.random
          (looked_twice willing the_file five_mapped same.0 start).calls)
open_with_advice_iff_example =
    open_with_advice_iff willing the_file five_mapped MmapAdvice.random start

abbrev same_file : SameFile willing the_file five_mapped []
same_file = (3, five_bytes, five_bytes, refl, (refl, refl, refl), refl, refl, refl, refl)

-- A directory with a file `b`, and a subdirectory `a` with a file `c`.
abbrev pub tree : Listing
tree = entries (
    entry (codes "b") regular
      (entry (codes "a") (directory (entries (entry (codes "c") regular end))) end))

abbrev found : List FilePath
found = (codes "b" ∷ []) ∷ (codes "a" ∷ codes "c" ∷ []) ∷ []

collect_files_iff_example :
    (collect_files [] tree [] ≡ ok found) ↔ (Plain tree × (found ≡ files [] tree))
collect_files_iff_example = collect_files_iff [] tree [] found

abbrev region_of : FilePath → MmapRegion
region_of path = record { mmap = five_mapped; path = path; size = 5 }

abbrev pub both : MmapCorpus
both = record {
  base = [];
  mappings = region_of (codes "a" ∷ codes "c" ∷ []) ∷ region_of (codes "b" ∷ []) ∷ [];
}

both_open : (open_with_limits willing [] tree 8 10 start).0 ≡ ok both
unfolding open_with_limits collect_files map_files sort insert_path compare_path map_one
both_open = refl

open_with_limits_sound_example :
    Plain tree × WithinLimits willing 8 10 (sort (files [] tree)) both.mappings
open_with_limits_sound_example =
    open_with_limits_sound willing 8 10 (omega arith) [] tree start both both_open

-- The same directory, with the subdirectory first.
abbrev tree_again : Listing
tree_again = entries (
    entry (codes "a") (directory (entries (entry (codes "c") regular end)))
      (entry (codes "b") regular end))

open_with_limits-Shuffled_example :
    answer_of (open_with_limits willing [] tree 8 10 start)
    ≡ answer_of (open_with_limits willing [] tree_again 8 10 start)
open_with_limits-Shuffled_example =
    open_with_limits-Shuffled willing 8 10 [] tree tree_again start (of_entries swap)

-- The second file is above the limit of all files.
open_with_limits-held_example : held (open_with_limits willing [] tree 8 9 start).1.calls ≡ []
unfolding open_with_limits collect_files map_files sort insert_path compare_path map_one
open_with_limits-held_example = open_with_limits-held willing [] tree 8 9 start

abbrev on_one : MmapBlock
on_one = record { ptr = 4096; len = 100; numa_node = some 1 }

placed : (Block.new_on_node willing 100 1 start).0 ≡ ok on_one
unfolding Block.new_on_node bind_memory_to_node split trim_end trim_start is_whitespace split_once
    from_str_radix
placed = refl

new_on_node-IsBlock_example :
    IsBlock 100 (some 1) on_one
    × IsBound willing (as_ptr on_one) 100 1 65 (Block.new_on_node willing 100 1 start).1
new_on_node-IsBlock_example = new_on_node-IsBlock willing 100 1 65 start on_one placed

open_read_with_size_iff_example :
    ((open_read_with_size willing the_file 5 start).0 ≡ ok five_mapped)
    ↔ IsSized willing the_file five_mapped 5 start
open_read_with_size_iff_example = open_read_with_size_iff willing the_file five_mapped 5 start

-- The file grows between its mapping and the second look.
abbrev growing : Os
growing = record willing {
  fstat_answer = λ calls fd. elim calls [
    | Event.map_file _ _ _ ∷ _ ↦ done (record five_bytes { len = 6 })
    | _ ↦ done five_bytes
  ];
}

abbrev has_grown : Error
has_grown = system "mmap(revalidate)" (custom invalid_data (text "mapped file changed during open"))

open_with_advice-err_example :
    ((open_with_advice growing the_file MmapAdvice.random start).0 ≡ err has_grown)
    ↔ OpenFails growing the_file MmapAdvice.random start has_grown
open_with_advice-err_example =
    open_with_advice-err growing the_file MmapAdvice.random start has_grown

grown : (open_with_advice growing the_file MmapAdvice.random start).0 ≡ err has_grown
unfolding open_with_advice
grown = refl
