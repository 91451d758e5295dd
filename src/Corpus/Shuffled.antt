-- ===== src/Corpus/Shuffled.antt =====
-- src/corpus.rs: the same directory in another order of its entries, at every depth. `read_dir` gives
-- the entries in no fixed order.
use kernelkit.Common.{List, ◌++◌, ◌≡◌, refl, sym, ap, ◌∙◌}
use kernelkit.Errors.{IoError}
use kernelkit.Text.{Text}
use kernelkit.Machine.{FilePath}
use kernelkit.Corpus.Walk.{
  Listing, unreadable, entries, Entries, end, bad_entry, entry, FileType, directory, join,
}
use kernelkit.Corpus.Files.{Plain, PlainEntries, PlainType, files, files_of_entries, files_of_type}
use kernelkit.Corpus.Canonical.{insert_all, insert_all-append, insert_all_comm}

mutual
  pub data Shuffled : Listing → Listing → Type 0 where
    not_read : {source : IoError} → Shuffled (unreadable source) (unreadable source)
    of_entries : {es fs : Entries} → ShuffledEntries es fs → Shuffled (entries es) (entries fs)

  pub data ShuffledEntries : Entries → Entries → Type 0 where
    at_end : ShuffledEntries end end
    keep_bad :
        {source : IoError} {es fs : Entries}
        → ShuffledEntries es fs
        → ShuffledEntries (bad_entry source es) (bad_entry source fs)
    keep_entry :
        {name : Text} {t u : FileType} {es fs : Entries}
        → ShuffledType t u
        → ShuffledEntries es fs
        → ShuffledEntries (entry name t es) (entry name u fs)
    swap :
        {a b : Text} {t u : FileType} {es : Entries}
        → ShuffledEntries (entry a t (entry b u es)) (entry b u (entry a t es))
    sink_bad :
        {source : IoError} {a : Text} {t : FileType} {es : Entries}
        → ShuffledEntries (bad_entry source (entry a t es)) (entry a t (bad_entry source es))
    raise_bad :
        {source : IoError} {a : Text} {t : FileType} {es : Entries}
        → ShuffledEntries (entry a t (bad_entry source es)) (bad_entry source (entry a t es))
    swap_bad :
        {source source' : IoError} {es : Entries}
        → ShuffledEntries
            (bad_entry source (bad_entry source' es))
            (bad_entry source' (bad_entry source es))
    again :
        {es fs gs : Entries} → ShuffledEntries es fs → ShuffledEntries fs gs → ShuffledEntries es gs

  pub data ShuffledType : FileType → FileType → Type 0 where
    same_type : {t : FileType} → ShuffledType t t
    inside : {l m : Listing} → Shuffled l m → ShuffledType (directory l) (directory m)

mutual
  pub Shuffled-symm : {l m : Listing} → Shuffled l m → Shuffled m l
  Shuffled-symm not_read = not_read
  Shuffled-symm (of_entries h) = of_entries (ShuffledEntries-symm h)

  ShuffledEntries-symm : {es fs : Entries} → ShuffledEntries es fs → ShuffledEntries fs es
  ShuffledEntries-symm at_end = at_end
  ShuffledEntries-symm (keep_bad h) = keep_bad (ShuffledEntries-symm h)
  ShuffledEntries-symm (keep_entry k h) = keep_entry (ShuffledType-symm k) (ShuffledEntries-symm h)
  ShuffledEntries-symm swap = swap
  ShuffledEntries-symm sink_bad = raise_bad
  ShuffledEntries-symm raise_bad = sink_bad
  ShuffledEntries-symm swap_bad = swap_bad
  ShuffledEntries-symm (again h k) = again (ShuffledEntries-symm k) (ShuffledEntries-symm h)

  ShuffledType-symm : {t u : FileType} → ShuffledType t u → ShuffledType u t
  ShuffledType-symm same_type = same_type
  ShuffledType-symm (inside h) = inside (Shuffled-symm h)

mutual
  unfolding Plain

  pub Plain-Shuffled : {l m : Listing} → Shuffled l m → Plain l → Plain m
  Plain-Shuffled not_read h = h
  Plain-Shuffled (of_entries k) h = PlainEntries-Shuffled k h

  PlainEntries-Shuffled :
      {es fs : Entries} → ShuffledEntries es fs → PlainEntries es → PlainEntries fs
  PlainEntries-Shuffled at_end h = h
  PlainEntries-Shuffled (keep_bad k) h = h
  PlainEntries-Shuffled (keep_entry k k') (h, h') =
      (PlainType-Shuffled k h, PlainEntries-Shuffled k' h')
  PlainEntries-Shuffled swap (h, (h', h'')) = (h', (h, h''))
  PlainEntries-Shuffled sink_bad h = absurd h
  PlainEntries-Shuffled raise_bad h = absurd h.1
  PlainEntries-Shuffled swap_bad h = h
  PlainEntries-Shuffled (again k k') h = PlainEntries-Shuffled k' (PlainEntries-Shuffled k h)

  PlainType-Shuffled : {t u : FileType} → ShuffledType t u → PlainType t → PlainType u
  PlainType-Shuffled same_type h = h
  PlainType-Shuffled (inside k) h = Plain-Shuffled k h

-- Two runs of insertions, and the runs of the two halves the other way round.
insert_all_swap :
    (ps qs rs l : List FilePath) → insert_all (ps ++ (qs ++ rs)) l ≡ insert_all (qs ++ (ps ++ rs)) l
insert_all_swap ps qs rs l =
    insert_all-append ps (qs ++ rs) l
    ∙ ap (insert_all ps) (insert_all-append qs rs l)
    ∙ insert_all_comm ps qs (insert_all rs l)
    ∙ sym (ap (insert_all qs) (insert_all-append ps rs l))
    ∙ sym (insert_all-append qs (ps ++ rs) l)

mutual
  unfolding files Plain

  pub insert_all-Shuffled :
      (dir : FilePath) {l m : Listing} (k : Shuffled l m) (out : List FilePath)
      → Plain l
      → insert_all (files dir l) out ≡ insert_all (files dir m) out
  insert_all-Shuffled dir not_read out h = refl
  insert_all-Shuffled dir (of_entries k) out h = insert_all-ShuffledEntries dir k out h

  insert_all-ShuffledEntries :
      (dir : FilePath) {es fs : Entries} (k : ShuffledEntries es fs) (out : List FilePath)
      → PlainEntries es
      → insert_all (files_of_entries dir es) out ≡ insert_all (files_of_entries dir fs) out
  insert_all-ShuffledEntries dir at_end out h = refl
  insert_all-ShuffledEntries dir (keep_bad k) out h = refl
  insert_all-ShuffledEntries dir (keep_entry {name} {t} {u} {es} {fs} k k') out h =
      insert_all-append (files_of_type (join dir name) t) (files_of_entries dir es) out
      ∙ ap (insert_all (files_of_type (join dir name) t))
          (insert_all-ShuffledEntries dir k' out h.1)
      ∙ insert_all-ShuffledType (join dir name) k (insert_all (files_of_entries dir fs) out) h.0
      ∙ sym (insert_all-append (files_of_type (join dir name) u) (files_of_entries dir fs) out)
  insert_all-ShuffledEntries dir (swap {a} {b} {t} {u} {es}) out h =
      insert_all_swap (files_of_type (join dir a) t) (files_of_type (join dir b) u)
        (files_of_entries dir es) out
  insert_all-ShuffledEntries dir sink_bad out h = absurd h
  insert_all-ShuffledEntries dir raise_bad out h = absurd h.1
  insert_all-ShuffledEntries dir swap_bad out h = refl
  insert_all-ShuffledEntries dir (again k k') out h =
      insert_all-ShuffledEntries dir k out h
      ∙ insert_all-ShuffledEntries dir k' out (PlainEntries-Shuffled k h)

  insert_all-ShuffledType :
      (path : FilePath) {t u : FileType} (k : ShuffledType t u) (out : List FilePath)
      → PlainType t
      → insert_all (files_of_type path t) out ≡ insert_all (files_of_type path u) out
  insert_all-ShuffledType path same_type out h = refl
  insert_all-ShuffledType path (inside k) out h = insert_all-Shuffled path k out h
