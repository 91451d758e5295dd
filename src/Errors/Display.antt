-- ===== src/Errors/Display.antt =====
-- src/lib.rs: the text that `Display` gives an error, from the `#[error(…)]` attributes. How the
-- standard library prints a `std::io::Error` is a parameter.
use kernelkit.Common.{List, [], ◌∷◌, ◌++◌, append_assoc, ◌≡◌, ap, sym, ◌∙◌}
use kernelkit.Errors.{
  Error, IoError, allocation_overflow, allocation_failed, null_pointer, invalid_node, system,
  sysfs_read, sysfs_parse, invalid_magic, unsupported_version, section_too_large, unexpected_eof,
  library_load, symbol_load,
}
use kernelkit.Text.{Text, codes}
use kernelkit.Text.Printed.{decimal}

-- The pieces of a format string, one behind the other.
abbrev concat : List Text → Text
concat [] = []
concat (piece ∷ pieces) = piece ++ concat pieces

module _ (show_io : IoError → Text) where
  -- The pieces of each format string, with its arguments in place.
  unfoldable pub pieces : Error → List Text
  pieces (allocation_overflow count type_name) =
      codes "allocation for "
      ∷ decimal count
      ∷ codes " values of `"
      ∷ codes type_name
      ∷ codes "` overflowed. Fix: reduce the element count or use a smaller element type."
      ∷ []
  pieces (allocation_failed count type_name) =
      codes "allocation failed for "
      ∷ decimal count
      ∷ codes " values of `"
      ∷ codes type_name
      ∷ codes "`. Fix: reduce the element count, enable huge pages, or free system memory."
      ∷ []
  pieces null_pointer =
      codes
        "pointer was null for a non-zero region length. Fix: pass a valid pointer or use length 0."
      ∷ []
  pieces (invalid_node node available) =
      codes "NUMA node "
      ∷ decimal node
      ∷ codes " is not available on this machine. Fix: use a node in the range 0.."
      ∷ decimal available
      ∷ codes "."
      ∷ []
  pieces (system operation source) =
      codes operation
      ∷ codes " failed: "
      ∷ show_io source
      ∷ codes ". Fix: verify kernel support, process privileges, and resource limits."
      ∷ []
  pieces (sysfs_read path source) =
      codes "could not read CPU cache metadata from `"
      ∷ codes path
      ∷ codes "`. Fix: verify `/sys` is mounted and readable, or rely on the fallback defaults."
      ∷ []
  pieces (sysfs_parse path) =
      codes "could not parse CPU cache metadata from `"
      ∷ codes path
      ∷ codes "`. Fix: verify the kernel exposes numeric cache values in sysfs."
      ∷ []
  pieces invalid_magic =
      codes
        "invalid binary format magic bytes. Fix: ensure the file was written by a compatible version."
      ∷ []
  pieces (unsupported_version version max_version) =
      codes "unsupported binary format version "
      ∷ decimal version
      ∷ codes " (max "
      ∷ decimal max_version
      ∷ codes "). Fix: upgrade the reader or downgrade the file."
      ∷ []
  pieces (section_too_large length) =
      codes "section length "
      ∷ decimal length
      ∷ codes " exceeds platform address space. Fix: ensure the file is not corrupted."
      ∷ []
  pieces (unexpected_eof context needed remaining) =
      codes "unexpected end of data reading "
      ∷ codes context
      ∷ codes ": needed "
      ∷ decimal needed
      ∷ codes " bytes, "
      ∷ decimal remaining
      ∷ codes " available. Fix: ensure the file is not truncated."
      ∷ []
  pieces (library_load library source) =
      codes "could not load `"
      ∷ codes library
      ∷ codes "`: "
      ∷ codes source
      ∷ codes ". Fix: install the runtime library or rely on the portable fallback path."
      ∷ []
  pieces (symbol_load library symbol source) =
      codes "could not resolve `"
      ∷ codes symbol
      ∷ codes "` from `"
      ∷ codes library
      ∷ codes "`: "
      ∷ codes source
      ∷ codes ". Fix: install a compatible version of the runtime library."
      ∷ []

  -- `Display for Error`
  unfoldable pub display : Error → Text
  unfolding pieces
  display e = concat (pieces e)

-- A text with a piece of advice in it.
abbrev pub NamesFix : Text → Type 0
NamesFix s = (front back : Text) × (s ≡ front ++ (codes "Fix: " ++ back))

within : (front : Text) {s : Text} → NamesFix s → NamesFix (front ++ s)
within front (before, back, e) =
    (front ++ before, back, ap (λ s. front ++ s) e ∙ sym (append_assoc front before _))

fix_in : (front advice rest : Text) → NamesFix ((front ++ (codes "Fix: " ++ advice)) ++ rest)
fix_in front advice rest =
    (front, advice ++ rest, append_assoc front (codes "Fix: " ++ advice) rest)

module _ (show_io : IoError → Text) where
  -- The text of every error, however the system's own errors are printed, says how to fix it.
  pub display-NamesFix : (e : Error) → NamesFix (display show_io e)
  unfolding display
  display-NamesFix (allocation_overflow count type_name) = within (codes "allocation for ") (
      within (decimal count) (
        within (codes " values of `") (
          within (codes type_name) (
            fix_in (codes "` overflowed. ")
              (codes "reduce the element count or use a smaller element type.") (concat ([]))))))
  display-NamesFix (allocation_failed count type_name) = within (codes "allocation failed for ") (
      within (decimal count) (
        within (codes " values of `") (
          within (codes type_name) (
            fix_in (codes "`. ")
              (codes "reduce the element count, enable huge pages, or free system memory.")
              (concat ([]))))))
  display-NamesFix null_pointer =
      fix_in (codes "pointer was null for a non-zero region length. ")
        (codes "pass a valid pointer or use length 0.") (concat ([]))
  display-NamesFix (invalid_node node available) = within (codes "NUMA node ") (
      within (decimal node) (
        fix_in (codes " is not available on this machine. ") (codes "use a node in the range 0..")
          (concat (decimal available ∷ codes "." ∷ []))))
  display-NamesFix (system operation source) = within (codes operation) (
      within (codes " failed: ") (
        within (show_io source) (
          fix_in (codes ". ")
            (codes "verify kernel support, process privileges, and resource limits.")
            (concat ([])))))
  display-NamesFix (sysfs_read path source) =
      within (codes "could not read CPU cache metadata from `") (
        within (codes path) (
          fix_in (codes "`. ")
            (codes "verify `/sys` is mounted and readable, or rely on the fallback defaults.")
            (concat ([]))))
  display-NamesFix (sysfs_parse path) = within (codes "could not parse CPU cache metadata from `") (
      within (codes path) (
        fix_in (codes "`. ") (codes "verify the kernel exposes numeric cache values in sysfs.")
          (concat ([]))))
  display-NamesFix invalid_magic =
      fix_in (codes "invalid binary format magic bytes. ")
        (codes "ensure the file was written by a compatible version.") (concat ([]))
  display-NamesFix (unsupported_version version max_version) =
      within (codes "unsupported binary format version ") (
        within (decimal version) (
          within (codes " (max ") (
            within (decimal max_version) (
              fix_in (codes "). ") (codes "upgrade the reader or downgrade the file.")
                (concat ([]))))))
  display-NamesFix (section_too_large length) = within (codes "section length ") (
      within (decimal length) (
        fix_in (codes " exceeds platform address space. ")
          (codes "ensure the file is not corrupted.") (concat ([]))))
  display-NamesFix (unexpected_eof context needed remaining) =
      within (codes "unexpected end of data reading ") (
        within (codes context) (
          within (codes ": needed ") (
            within (decimal needed) (
              within (codes " bytes, ") (
                within (decimal remaining) (
                  fix_in (codes " available. ") (codes "ensure the file is not truncated.")
                    (concat ([]))))))))
  display-NamesFix (library_load library source) = within (codes "could not load `") (
      within (codes library) (
        within (codes "`: ") (
          within (codes source) (
            fix_in (codes ". ")
              (codes "install the runtime library or rely on the portable fallback path.")
              (concat ([]))))))
  display-NamesFix (symbol_load library symbol source) = within (codes "could not resolve `") (
      within (codes symbol) (
        within (codes "` from `") (
          within (codes library) (
            within (codes "`: ") (
              within (codes source) (
                fix_in (codes ". ") (codes "install a compatible version of the runtime library.")
                  (concat ([]))))))))
