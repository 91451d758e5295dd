-- ===== src/Portable/FileIdentity.antt =====
-- src/file_identity.rs where the system is not unix: the fingerprint of a file is its length.
use kernelkit.Common.{
  ℕ, String, Bool, true, not, ◌||◌, ◌==◌, if◌then◌else◌, ◌≡◌, ◌↔◌, inl, inr, arith,
}
use kernelkit.Errors.{ok, done, system, custom, invalid_data, text}
use kernelkit.Machine.{Metadata, Os, State, M, pure, fail, ◌>>=◌}
use kernelkit.Machine.Syscalls as Sys
use kernelkit.Mmap.Identity.{Io-cases}
use kernelkit.FileIdentity as Unix
use kernelkit.FileIdentity.{io}

-- `FileIdentity`
pub record FileIdentity : Type 0 where
  pub len : ℕ

-- `FileIdentity::from_metadata`
unfoldable pub from_metadata : Metadata → FileIdentity
from_metadata m = record { len = m.len }

-- `same_inode`
unfoldable pub same_inode : FileIdentity → FileIdentity → Bool
same_inode expected current = true

unfoldable pub changed : FileIdentity → ℕ → FileIdentity → Bool
unfolding same_inode
changed expected expected_len current =
    not (current.len == expected_len)
    || not (current.len == expected.len)
    || not (same_inode expected current)

-- `validate_file_identity`
unfoldable pub validate_file_identity : Os → ℕ → FileIdentity → ℕ → String → M (Unit {0})
unfolding changed from_metadata
validate_file_identity os fd expected expected_len changed_msg = do
  current ← io "metadata(revalidate)" (Sys.fstat os fd)
  if changed expected expected_len (from_metadata current)
      then fail (system "mmap(revalidate)" (custom invalid_data (text changed_msg)))
      else pure tt

-- The fingerprint that is left of one taken on unix.
abbrev pub forget : Unix.FileIdentity → FileIdentity
forget expected = record { len = expected.len }

module _ (os : Os) (fd : ℕ) (expected : Unix.FileIdentity) (expected_len : ℕ) (msg : String)
    (s : State) where
  -- The second look shows the device and the inode that are expected.
  abbrev pub SameInode : Type 0
  SameInode =
      (m : Metadata) × (os.fstat_answer s.calls fd ≡ done m)
      × (m.dev ≡ expected.dev)
      × (m.ino ≡ expected.ino)

  -- On unix a file passes the check exactly where it passes the check of lengths that is left
  -- elsewhere and the second look shows the device and the inode that are expected.
  pub validate_file_identity_iff :
      ((Unix.validate_file_identity os fd expected expected_len msg s).0 ≡ ok tt) ↔ (
        ((validate_file_identity os fd (forget expected) expected_len msg s).0 ≡ ok tt) × SameInode)
  unfolding validate_file_identity Unix.validate_file_identity
  validate_file_identity_iff = elim (Io-cases (os.fstat_answer s.calls fd)) [
    | inl (m, e) ↦ (
      λ h. (grind arith, (m, e, grind arith, grind arith)),
      λ (h, (m', e', dev, ino)). let same : m ≡ m' = ground arith in grind arith,
    )
    | inr (io, e) ↦ (λ h. absurd (grind arith), λ (h, _). absurd (grind arith))
  ]
