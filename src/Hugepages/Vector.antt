-- ===== src/Hugepages/Vector.antt =====
-- src/hugepages.rs: `HugePageVec`, on huge pages where they can be had and on a `Vec` where not.
use kernelkit.Common.{ℕ, ◌*◌, Bool, List, Option, none, some, length, set, ltb, ◌==◌, if◌then◌else◌}
use kernelkit.Errors.{
  Error, Result, ok, err, panicked, Io, done, failed, allocation_overflow, allocation_failed,
}
use kernelkit.Defaults.{defaults}
use kernelkit.Lengths.{TypeInfo}
use kernelkit.Machine.{huge_page, Os, State, M, pure, fail, lift, ◌>>=◌, ◌>>◌, call}
use kernelkit.Machine.Syscalls as Sys
use kernelkit.Hugepages.Allocation
use kernelkit.Hugepages.Allocation.{HugeAllocation}

-- `Backing`, and `HugePageVec` over it
pub data HugePageVec (A : Type 0) : Type 0 where
  standard : List A → HugePageVec A
  huge : HugeAllocation A → HugePageVec A

-- `HugePageVec::len`
unfoldable pub len : {A : Type 0} → HugePageVec A → ℕ
len (standard values) = length values
len (huge allocation) = allocation.count

-- `HugePageVec::is_empty`
unfoldable pub is_empty : {A : Type 0} → HugePageVec A → Bool
unfolding len
is_empty v = len v == 0

-- `HugePageVec::as_slice`
unfoldable pub as_slice : {A : Type 0} → HugePageVec A → Option (List A)
unfolding Allocation.as_slice
as_slice (standard values) = some values
as_slice (huge allocation) = Allocation.as_slice allocation

abbrev as_huge : {A : Type 0} → Result (HugeAllocation A) → Result (HugePageVec A)
as_huge (ok allocation) = ok (huge allocation)
as_huge (err e) = err e
as_huge panicked = panicked

-- `HugePageVec::as_mut_slice`: the store `slice[i] = a`, which panics past the end.
unfoldable pub as_mut_slice : {A : Type 0} → HugePageVec A → ℕ → A → Result (HugePageVec A)
unfolding Allocation.as_mut_slice
as_mut_slice (standard values) i a =
    if ltb i (length values) then ok (standard (set values i a)) else panicked
as_mut_slice (huge allocation) i a = as_huge (Allocation.as_mut_slice allocation i a)

module _ (os : Os) where
  -- The hint for transparent huge pages, whose result is ignored.
  abbrev hint : {A : Type 0} → TypeInfo → ℕ → List A → M (Unit {0})
  hint T ptr values =
      if length values == 0
      then pure tt
      else call (Sys.madvise os ptr (length values * T.size) huge_page) >>= λ _. pure tt

  -- What the code behind the reservation of the buffer does.
  abbrev fill_standard : {A : Type 0} → TypeInfo → (ℕ → Option A) → ℕ → ℕ → M (HugePageVec A)
  fill_standard T default count ptr = do
    values ← lift (defaults default 0 count)
    hint T ptr values
    pure (standard values)

  -- A `Vec` that could not be reserved is the error `e`.
  abbrev reserved : Error → Io ℕ → M ℕ
  reserved e (done ptr) = pure ptr
  reserved e (failed _) = fail e

  abbrev by_vec : {A : Type 0} → TypeInfo → (ℕ → Option A) → ℕ → Error → M (HugePageVec A)
  by_vec T default count e = do
    answer ← call (Sys.reserve os T.size count)
    ptr ← reserved e answer
    fill_standard T default count ptr

  -- `if let Ok(Some(allocation))`: an error of the huge pages is dropped, a panic is not.
  abbrev prefer_huge :
      {A : Type 0}
      → Result (Option (HugeAllocation A)) × State
      → M (HugePageVec A)
      → Result (HugePageVec A) × State
  prefer_huge (ok (some allocation), s) rest = (ok (huge allocation), s)
  prefer_huge (ok none, s) rest = rest s
  prefer_huge (err e, s) rest = rest s
  prefer_huge (panicked, s) rest = (panicked, s)

  -- `HugePageVec::new_fallible`
  unfoldable pub new_fallible : {A : Type 0} → TypeInfo → (ℕ → Option A) → ℕ → M (HugePageVec A)
  new_fallible T default count s =
      prefer_huge (Allocation.new os T default count s)
        (by_vec T default count (allocation_overflow count T.type_name))

  -- `HugePageVec::try_new`
  unfoldable pub try_new : {A : Type 0} → TypeInfo → (ℕ → Option A) → ℕ → M (HugePageVec A)
  try_new T default count s =
      prefer_huge (Allocation.new os T default count s)
        (by_vec T default count (allocation_failed count T.type_name))

  -- `collect` panics, or aborts, where there is no buffer.
  abbrev collected : {A : Type 0} → TypeInfo → (ℕ → Option A) → ℕ → Io ℕ → M (HugePageVec A)
  collected T default count (done ptr) = fill_standard T default count ptr
  collected T default count (failed _) = lift panicked

  -- `HugePageVec::new`
  unfoldable pub new : {A : Type 0} → TypeInfo → (ℕ → Option A) → ℕ → M (HugePageVec A)
  new T default count s =
      prefer_huge (Allocation.new os T default count s)
        (call (Sys.reserve os T.size count) >>= collected T default count)

  -- The drop of a `HugePageVec`; the buffer of a `Vec` is the allocator's.
  unfoldable pub drop : {A : Type 0} → HugePageVec A → State → State
  unfolding Allocation.drop
  drop (standard values) s = s
  drop (huge allocation) s = Allocation.drop os allocation s
