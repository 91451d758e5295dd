-- ===== src/Corpus/Directory.antt =====
-- src/corpus.rs: a directory without the order of its entries, and the corpus that is opened on it.
use kernelkit.Common.{
  ℕ, List, [], Option, none, some, ◌≡◌, ◌≢◌, refl, sym, ap, ◌∙◌, inl, inr, ◌⊎◌, arith,
}
use mathlib.Core.Option as Options
use mathlib.Core.Quot
use mathlib.Core.Quot.{Quot}
use kernelkit.Errors.{Result, ok, err, panicked}
use kernelkit.Machine.{FilePath, Os, State, M, ◌>>=◌, pure, continue}
use kernelkit.Corpus.Walk.{Listing, collect_files}
use kernelkit.Corpus.Order.{sort}
use kernelkit.Corpus.Files.{Plain, files, collect_files_iff}
use kernelkit.Corpus.Mapping.{MmapRegion, MmapCorpus, map_files, open_with_limits}
use kernelkit.Corpus.Canonical.{sort-insert_all}
use kernelkit.Corpus.Shuffled.{Shuffled, Shuffled-symm, Plain-Shuffled, insert_all-Shuffled}

-- A listing up to the order of the entries at every depth.
abbrev pub Directory : Type 0
Directory = Quot Shuffled

abbrev value : {A : Type 0} → Result A → Option A
value (ok a) = some a
value (err e) = none
value panicked = none

value_cases :
    {A : Type 0} (r : Result A) → ((a : A) × (r ≡ ok a)) ⊎ (((a : A) → r ≢ ok a) × (value r ≡ none))
value_cases (ok a) = inl (a, refl)
value_cases (err e) = inr (λ a h. cc, refl)
value_cases panicked = inr (λ a h. cc, refl)

value-none : {A : Type 0} (r : Result A) → ((a : A) → r ≢ ok a) → value r ≡ none
value-none (ok a) h = absurd (h a refl)
value-none (err e) h = refl
value-none panicked h = refl

-- The files in the order in which they are mapped, where the walk succeeds.
abbrev sorted_files : FilePath → Listing → Option (List FilePath)
sorted_files base l = Options.map sort (value (collect_files base l []))

sort-Shuffled :
    (base : FilePath) {l m : Listing}
    → Shuffled l m
    → Plain l
    → sort (files base l) ≡ sort (files base m)
sort-Shuffled base {l} {m} k plain =
    sort-insert_all (files base l)
    ∙ insert_all-Shuffled base k [] plain
    ∙ sym (sort-insert_all (files base m))

walk-Shuffled :
    (base : FilePath) {l m : Listing} (k : Shuffled l m) (ps : List FilePath)
    → collect_files base l [] ≡ ok ps
    → (collect_files base m [] ≡ ok (files base m)) × (sort ps ≡ sort (files base m))
walk-Shuffled base {l} {m} k ps e =
    let (plain, same) = (collect_files_iff base l [] ps).0 e in
    (
      (collect_files_iff base m [] (files base m)).1 (Plain-Shuffled k plain, refl),
      ap sort same ∙ sort-Shuffled base k plain,
    )

sorted_files-Shuffled :
    (base : FilePath) (l m : Listing) → Shuffled l m → sorted_files base l ≡ sorted_files base m
sorted_files-Shuffled base l m k = elim (value_cases (collect_files base l [])) [
  | inl (ps, e) ↦ let (e', same) = walk-Shuffled base k ps e in ground arith
  | inr (refused, e) ↦
      let e' =
        value-none (collect_files base m [])
          (λ qs h. refused (files base l) (walk-Shuffled base (Shuffled-symm k) qs h).0) in
      ground arith
]

-- The files of a directory in the order in which they are mapped, where all of it can be walked.
pub files_of : FilePath → Directory → Option (List FilePath)
files_of base = Quot.lift (hlevel) (sorted_files base) (sorted_files-Shuffled base)

abbrev pub answer_of : {A : Type 0} → Result A × State → Option A × State
answer_of (r, s) = (value r, s)

module _ (os : Os) (max_file max_total : ℕ) (base : FilePath) where
  abbrev corpus_of : List MmapRegion → M MmapCorpus
  corpus_of regions = pure (record { base = base; mappings = regions })

  abbrev map_found : Option (List FilePath) → State → Option MmapCorpus × State
  map_found none s = (none, s)
  map_found (some paths) s =
      answer_of (continue (map_files os max_file max_total paths 0 [] s) corpus_of)

  -- The corpus on a directory whose entries have no order.
  abbrev pub open_directory : Directory → State → Option MmapCorpus × State
  open_directory d = map_found (files_of base d)

  answer_of_walk :
      (walked : Result (List FilePath)) (s : State)
      → answer_of (
          continue
            (walked, s)
            λ paths. map_files os max_file max_total (sort paths) 0 [] >>= corpus_of)
        ≡ map_found (Options.map sort (value walked)) s
  answer_of_walk (ok paths) s = refl
  answer_of_walk (err e) s = refl
  answer_of_walk panicked s = refl

  -- What opening a corpus gives depends on the directory without the order of its entries alone.
  pub open_with_limits-Directory :
      (l : Listing) (s : State)
      → answer_of (open_with_limits os base l max_file max_total s) ≡ open_directory (Quot.mk l) s
  unfolding open_with_limits files_of
  open_with_limits-Directory l s = answer_of_walk (collect_files base l []) s

  -- Two listings of one directory, with the entries in any order at any depth, give the same
  -- corpus, or both none, and the same calls behind the walk.
  pub open_with_limits-Shuffled :
      (l m : Listing) (s : State)
      → Shuffled l m
      → answer_of (open_with_limits os base l max_file max_total s)
        ≡ answer_of (open_with_limits os base m max_file max_total s)
  open_with_limits-Shuffled l m s k =
      open_with_limits-Directory l s
      ∙ ap (λ d. open_directory d s) (Quot.eq l m k)
      ∙ sym (open_with_limits-Directory m s)
