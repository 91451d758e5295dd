-- ===== src/Corpus/Files.antt =====
-- src/corpus.rs: the walk against a description of the directories it is for (`Plain`) and of their
-- files (`files`).
use kernelkit.Common.{List, [], ◌∷◌, ◌++◌, append-nil, append_assoc, ◌≡◌, refl, ◌↔◌, arith}
use kernelkit.Errors.{Result, ok, err, panicked, ◌>>=◌}
use kernelkit.Machine.{FilePath}
use kernelkit.Corpus.Walk.{
  Listing, unreadable, entries, Entries, end, bad_entry, entry, FileType, unknown, symlink,
  directory, regular, special, join, collect_files, collect_entries, collect_entry,
}

-- Every entry can be read, and is a file or such a directory.
unfoldable mutual
  pub Plain : Listing → Type 0
  Plain (unreadable source) = ⊥
  Plain (entries es) = PlainEntries es

  pub PlainEntries : Entries → Type 0
  PlainEntries end = Unit {0}
  PlainEntries (bad_entry source es) = ⊥
  PlainEntries (entry name type es) = PlainType type × PlainEntries es

  pub PlainType : FileType → Type 0
  PlainType (unknown source) = ⊥
  PlainType symlink = ⊥
  PlainType (directory l) = Plain l
  PlainType regular = Unit {0}
  PlainType special = ⊥

-- The files of a directory, those of a subdirectory where it stands.
unfoldable mutual
  pub files : FilePath → Listing → List FilePath
  files dir (unreadable source) = []
  files dir (entries es) = files_of_entries dir es

  pub files_of_entries : FilePath → Entries → List FilePath
  files_of_entries dir end = []
  files_of_entries dir (bad_entry source es) = []
  files_of_entries dir (entry name type es) =
      files_of_type (join dir name) type ++ files_of_entries dir es

  pub files_of_type : FilePath → FileType → List FilePath
  files_of_type path (unknown source) = []
  files_of_type path symlink = []
  files_of_type path (directory l) = files path l
  files_of_type path regular = path ∷ []
  files_of_type path special = []

mutual
  unfolding Plain files collect_files

  collect_files-of_Plain :
      (dir : FilePath) (l : Listing) (out : List FilePath)
      → Plain l
      → collect_files dir l out ≡ ok (out ++ files dir l)
  collect_files-of_Plain dir (unreadable source) out h = absurd h
  collect_files-of_Plain dir (entries es) out h = collect_entries-of_Plain dir es out h

  collect_entries-of_Plain :
      (dir : FilePath) (es : Entries) (out : List FilePath)
      → PlainEntries es
      → collect_entries dir es out ≡ ok (out ++ files_of_entries dir es)
  collect_entries-of_Plain dir end out h = rw append-nil
  collect_entries-of_Plain dir (bad_entry source es) out h = absurd h
  collect_entries-of_Plain dir (entry name type es) out (h, hs) =
      rw (collect_entry-of_Plain (join dir name) type out h) (
        rw (collect_entries-of_Plain dir es (out ++ files_of_type (join dir name) type) hs)
          (rw append_assoc))

  collect_entry-of_Plain :
      (path : FilePath) (type : FileType) (out : List FilePath)
      → PlainType type
      → collect_entry path type out ≡ ok (out ++ files_of_type path type)
  collect_entry-of_Plain path (unknown source) out h = absurd h
  collect_entry-of_Plain path symlink out h = absurd h
  collect_entry-of_Plain path (directory l) out h = collect_files-of_Plain path l out h
  collect_entry-of_Plain path regular out h = refl
  collect_entry-of_Plain path special out h = absurd h

-- The value of a result, as a type that an error leaves empty.
abbrev Succeeds {ℓ} : {A : Type ℓ} → Result A → Type 0
Succeeds (ok a) = Unit {0}
Succeeds r = ⊥

abbrev both_succeed {ℓ κ} :
    {A : Type ℓ} {B : Type κ} (m : Result A) (f : A → Result B)
    → Succeeds (m >>= f)
    → (a : A) × (m ≡ ok a) × Succeeds (f a)
both_succeed (ok a) f h = (a, refl, h)
both_succeed (err e) f h = absurd h
both_succeed panicked f h = absurd h

mutual
  unfolding Plain collect_files

  Plain-of_collect_files :
      (dir : FilePath) (l : Listing) (out : List FilePath)
      → Succeeds (collect_files dir l out)
      → Plain l
  Plain-of_collect_files dir (unreadable source) out h = absurd h
  Plain-of_collect_files dir (entries es) out h = Plain-of_collect_entries dir es out h

  Plain-of_collect_entries :
      (dir : FilePath) (es : Entries) (out : List FilePath)
      → Succeeds (collect_entries dir es out)
      → PlainEntries es
  Plain-of_collect_entries dir end out h = tt
  Plain-of_collect_entries dir (bad_entry source es) out h = absurd h
  Plain-of_collect_entries dir (entry name type es) out h =
      let parts =
        both_succeed (collect_entry (join dir name) type out) (collect_entries dir es) h in
      (
        Plain-of_collect_entry (join dir name) type out (rw parts.1 tt),
        Plain-of_collect_entries dir es parts.0 parts.2,
      )

  Plain-of_collect_entry :
      (path : FilePath) (type : FileType) (out : List FilePath)
      → Succeeds (collect_entry path type out)
      → PlainType type
  Plain-of_collect_entry path (unknown source) out h = absurd h
  Plain-of_collect_entry path symlink out h = absurd h
  Plain-of_collect_entry path (directory l) out h = Plain-of_collect_files path l out h
  Plain-of_collect_entry path regular out h = tt
  Plain-of_collect_entry path special out h = absurd h

-- The walk succeeds exactly on a directory that is plain at every depth, without symbolic links,
-- special files and unreadable entries, and returns its files behind those it was given.
pub collect_files_iff :
    (dir : FilePath) (l : Listing) (out result : List FilePath)
    → (collect_files dir l out ≡ ok result) ↔ (Plain l × (result ≡ out ++ files dir l))
collect_files_iff dir l out result = (
  λ h.
      let plain = Plain-of_collect_files dir l out (rw h tt) in
      (plain, ground (arith, collect_files-of_Plain dir l out plain)),
  λ (plain, e). ground (arith, collect_files-of_Plain dir l out plain),
)
