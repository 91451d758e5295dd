-- ===== src/FileIdentity.antt =====
-- src/file_identity.rs on unix: the fingerprint of a file, and the check that a second look at the
-- file still shows it.
use kernelkit.Common.{ℕ, String, Bool, not, ◌&&◌, ◌||◌, ◌==◌, if◌then◌else◌}
use kernelkit.Errors.{system, custom, invalid_data, text, Io, map_err}
use kernelkit.Machine.{Metadata, Os, State, M, pure, fail, lift, ◌>>=◌, call}
use kernelkit.Machine.Syscalls as Sys

-- `map_err(|source| Error::System { operation, source })?` on a call of the system
abbrev pub io : {A : Type 0} → String → (State → Io A × State) → M A
io operation f = call f >>= λ answer. lift (map_err operation answer)

-- `FileIdentity`
pub record FileIdentity : Type 0 where
  pub len : ℕ
  pub dev : ℕ
  pub ino : ℕ

-- `FileIdentity::from_metadata`
unfoldable pub from_metadata : Metadata → FileIdentity
from_metadata m = record { len = m.len; dev = m.dev; ino = m.ino }

-- `same_inode`
unfoldable pub same_inode : FileIdentity → FileIdentity → Bool
same_inode expected current = expected.dev == current.dev && expected.ino == current.ino

-- The condition of `validate_file_identity` under which the file has changed.
unfoldable pub changed : FileIdentity → ℕ → FileIdentity → Bool
unfolding same_inode
changed expected expected_len current =
    not (current.len == expected_len)
    || not (current.len == expected.len)
    || not (same_inode expected current)

-- `validate_file_identity`
unfoldable pub validate_file_identity : Os → ℕ → FileIdentity → ℕ → String → M (Unit {0})
unfolding changed from_metadata
validate_file_identity os fd expected expected_len changed_msg = do
  current ← io "metadata(revalidate)" (Sys.fstat os fd)
  if changed expected expected_len (from_metadata current)
      then fail (system "mmap(revalidate)" (custom invalid_data (text changed_msg)))
      else pure tt
