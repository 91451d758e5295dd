-- ===== src/Runs/Corpora.antt =====
-- A corpus on two systems, and the run behind it.
use kernelkit.Common.{ℕ, [], ◌∷◌, ◌≡◌, ◌↔◌, refl, ◌⊎◌}
use kernelkit.Errors.{Error, ok, err, done, system, custom, invalid_data, text}
use kernelkit.Text.{codes}
use kernelkit.Machine.{Os, State}
use kernelkit.Corpus.Walk.{Listing, entries, entry, regular, end, collect_files}
use kernelkit.Mmap.File.{MmapAdvice, open_with_advice}
use kernelkit.Corpus.Order.{sort, insert_path, compare_path}
use kernelkit.Corpus.Mapping.{MmapCorpus, map_one, map_files, open_with_limits, corpus_too_large}
use kernelkit.Corpus.Outcome.{Fails, open_with_limits_outcome}
use kernelkit.Corpus.Run.{IsRun, open_with_limits_iff}
use kernelkit.Portable.Corpus as Portable
use kernelkit.Portable.Corpus.Advice.{
  TakesAdvice, unadvised_state, without_advice, open_with_limits-unadvised,
}
use kernelkit.Runs.Systems.{five_mapped, the_file, willing, start}
use kernelkit.Runs.Maps.{tree, both}

abbrev behind : ℕ → State
behind max_total = (open_with_limits willing [] tree 8 max_total start).1

open_with_limits_iff_example :
    (open_with_limits willing [] tree 8 10 start ≡ (ok both, behind 10))
    ↔ IsRun willing 8 10 [] tree start both (behind 10)
open_with_limits_iff_example = open_with_limits_iff willing 8 10 [] tree start both (behind 10)

-- The second file is above the limit of all files.
too_large : (open_with_limits willing [] tree 8 9 start).0 ≡ err (corpus_too_large 9)
unfolding open_with_limits collect_files map_files sort insert_path compare_path map_one
too_large = refl

open_with_limits_outcome_example :
    ((corpus : MmapCorpus) × ((open_with_limits willing [] tree 8 9 start).0 ≡ ok corpus)
      × IsRun willing 8 9 [] tree start corpus (behind 9))
    ⊎ ((e : Error) × ((open_with_limits willing [] tree 8 9 start).0 ≡ err e)
        × Fails willing 8 9 [] tree start e (behind 9))
open_with_limits_outcome_example = open_with_limits_outcome willing 8 9 [] tree start

takes : TakesAdvice willing
takes = (λ calls ptr len. refl, λ calls path. refl, λ calls fd. refl, λ calls fd. refl)

open_with_limits-unadvised_example :
    Portable.open_with_limits willing [] tree 8 10 (unadvised_state start)
    ≡ without_advice (open_with_limits willing [] tree 8 10 start)
open_with_limits-unadvised_example = open_with_limits-unadvised willing takes 8 10 [] tree start

-- A file of five bytes that has grown to nine when it is mapped, and has its five bytes again when it is
-- looked at behind the mapping.
abbrev wavering : Os
wavering = record willing { map_answer = λ _ _ _. done (record five_mapped { len = 9 }) }

abbrev one_file : Listing
one_file = entries (entry (codes "a") regular end)

-- A corpus has it with a size that is not the length of its slice.
sizes_differ :
    (open_with_limits wavering [] one_file 8 10 start).0
    ≡ ok (record {
      base = [];
      mappings = record { mmap = record five_mapped { len = 9 }; path = the_file; size = 5 } ∷ [];
    })
unfolding open_with_limits collect_files map_files sort insert_path compare_path map_one
sizes_differ = refl

-- Opened as a file, it is refused.
refused :
    (open_with_advice wavering the_file MmapAdvice.random start).0
    ≡ err (system "mmap(revalidate)" (custom invalid_data (text "mapped file changed during open")))
unfolding open_with_advice
refused = refl
