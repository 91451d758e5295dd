-- ===== src/Portable/Hugepages.antt =====
-- src/hugepages.rs where the system is not Linux: the one backing of `HugePageVec` is a `Vec`, and
-- the constructors try no huge pages and give no hint.
use kernelkit.Common.{ℕ, Bool, ◌≡◌, List, Option, arith, length, set, ltb, ◌==◌, if◌then◌else◌}
use kernelkit.Errors.{
  Result, ok, panicked, Io, done, failed, allocation_overflow, allocation_failed,
}
use kernelkit.Defaults.{defaults}
use kernelkit.Lengths.{TypeInfo}
use kernelkit.Machine.{Os, State, M, pure, fail, lift, ◌>>=◌, call}
use kernelkit.Machine.Syscalls as Sys
use kernelkit.Hugepages.Constructors.{Constructor, by_new, by_new_fallible, by_try_new}

-- `Backing`, and `HugePageVec` over it
pub data HugePageVec (A : Type 0) : Type 0 where
  standard : List A → HugePageVec A

-- `HugePageVec::as_slice`
unfoldable pub as_slice : {A : Type 0} → HugePageVec A → List A
as_slice (standard values) = values

-- `HugePageVec::len` and `HugePageVec::is_empty`
unfoldable pub len : {A : Type 0} → HugePageVec A → ℕ
len (standard values) = length values

unfoldable pub is_empty : {A : Type 0} → HugePageVec A → Bool
unfolding len
is_empty v = len v == 0

-- `HugePageVec::as_mut_slice`: the store `slice[i] = a`, which panics past the end.
unfoldable pub as_mut_slice : {A : Type 0} → HugePageVec A → ℕ → A → Result (HugePageVec A)
as_mut_slice (standard values) i a =
    if ltb i (length values) then ok (standard (set values i a)) else panicked

module _ {A : Type 0} (os : Os) (T : TypeInfo) (default : ℕ → Option A) (count : ℕ) where
  -- `resize_with` and the `Vec` around its values
  abbrev fill : M (HugePageVec A)
  fill = lift (defaults default 0 count) >>= λ values. pure (standard values)

  abbrev reserved : M (HugePageVec A) → Io ℕ → M (HugePageVec A)
  reserved refused (done ptr) = fill
  reserved refused (failed _) = refused

  -- `HugePageVec::new_fallible`
  unfoldable pub new_fallible : M (HugePageVec A)
  new_fallible =
      call (Sys.reserve os T.size count) >>= reserved (fail (allocation_overflow count T.type_name))

  -- `HugePageVec::try_new`
  unfoldable pub try_new : M (HugePageVec A)
  try_new =
      call (Sys.reserve os T.size count) >>= reserved (fail (allocation_failed count T.type_name))

  -- `HugePageVec::new`: `collect` panics, or aborts, where there is no buffer.
  unfoldable pub new : M (HugePageVec A)
  new = call (Sys.reserve os T.size count) >>= reserved (lift panicked)

  abbrev pub construct_portable : Constructor → M (HugePageVec A)
  construct_portable by_new = new
  construct_portable by_new_fallible = new_fallible
  construct_portable by_try_new = try_new

  pub construct_portable-defaults :
      (k : Constructor) (s : State) (w : HugePageVec A)
      → (construct_portable k s).0 ≡ ok w
      → defaults default 0 count ≡ ok (as_slice w)
  unfolding new new_fallible try_new as_slice
  construct_portable-defaults by_new s w h = grind arith
  construct_portable-defaults by_new_fallible s w h = grind arith
  construct_portable-defaults by_try_new s w h = grind arith
