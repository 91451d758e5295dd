-- ===== src/Locking.antt =====
-- src/mlock.rs: locking and unlocking a region.
use kernelkit.Common.{ℕ, ℤ, String, Option, none, some, ◌==◌, if◌then◌else◌}
use kernelkit.Errors.{null_pointer}
use kernelkit.Lengths.{non_zero_len}
use kernelkit.Machine.{Os, State, M, pure, fail, ◌>>=◌, call}
use kernelkit.Machine.Syscalls as Sys

abbrev if_some : Option ℕ → M (Unit {0}) → M (Unit {0})
if_some none k = pure tt
if_some (some n) k = k

-- `region_call`: the operation is `mlock` or `munlock`.
unfoldable pub region_call : Os → ℕ → ℕ → (ℕ → ℕ → State → ℤ × State) → String → M (Unit {0})
region_call os ptr len operation operation_name = if_some (non_zero_len len) (
    if ptr == 0
    then fail null_pointer
    else call (operation ptr len) >>= Sys.check os operation_name)

-- `lock_region`
unfoldable pub lock_region : Os → ℕ → ℕ → M (Unit {0})
unfolding region_call non_zero_len
lock_region os ptr len = region_call os ptr len (Sys.mlock os) "mlock"

-- `unlock_region`
unfoldable pub unlock_region : Os → ℕ → ℕ → M (Unit {0})
unfolding region_call non_zero_len
unlock_region os ptr len = region_call os ptr len (Sys.munlock os) "munlock"
