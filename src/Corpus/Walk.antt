-- ===== src/Corpus/Walk.antt =====
-- src/corpus.rs: `collect_files`. A directory is read once in a walk, so what the system shows of it
-- is a tree: a listing, or the error of `read_dir`; in a listing, errors in place of entries, and
-- entries with the type that `file_type` gives, or its error.
use kernelkit.Common.{List, [], ◌∷◌, ◌++◌}
use kernelkit.Errors.{
  Error, IoError, Result, ok, err, ◌>>=◌, system, custom, invalid_input, text, code_points, joined,
}
use kernelkit.Text.{Text}
use kernelkit.Machine.{FilePath}

mutual
  pub data Listing : Type 0 where
    unreadable : IoError → Listing
    entries : Entries → Listing

  pub data Entries : Type 0 where
    end : Entries
    bad_entry : IoError → Entries → Entries
    entry : (name : Text) → FileType → Entries → Entries

  pub data FileType : Type 0 where
    unknown : IoError → FileType
    symlink : FileType
    directory : Listing → FileType
    regular : FileType
    special : FileType

-- `Path::join` of one name
abbrev pub join : FilePath → Text → FilePath
join dir name = dir ++ (name ∷ [])

-- `Path::display`
abbrev pub display : FilePath → Text
display [] = []
display (name ∷ []) = name
display (name ∷ rest) = name ++ (0x2f ∷ display rest)

abbrev pub symlink_error : Error
symlink_error =
    system "collect_files" (custom invalid_input (text "symlinks are not permitted in corpus"))

abbrev pub special_error : FilePath → Error
special_error path = system "collect_files" (
    custom invalid_input
      (joined (text "unsupported file type in corpus: ") (code_points (display path))))

-- `collect_files`: `out` is the vector that the walk appends to.
unfoldable mutual
  pub collect_files : FilePath → Listing → List FilePath → Result (List FilePath)
  collect_files dir (unreadable source) out = err (system "read_dir" source)
  collect_files dir (entries es) out = collect_entries dir es out

  pub collect_entries : FilePath → Entries → List FilePath → Result (List FilePath)
  collect_entries dir end out = ok out
  collect_entries dir (bad_entry source es) out = err (system "read_dir" source)
  collect_entries dir (entry name type es) out =
      collect_entry (join dir name) type out >>= collect_entries dir es

  pub collect_entry : FilePath → FileType → List FilePath → Result (List FilePath)
  collect_entry path (unknown source) out = err (system "file_type" source)
  collect_entry path symlink out = err symlink_error
  collect_entry path (directory l) out = collect_files path l out
  collect_entry path regular out = ok (out ++ (path ∷ []))
  collect_entry path special out = err (special_error path)
