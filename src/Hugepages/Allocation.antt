-- ===== src/Hugepages/Allocation.antt =====
-- src/hugepages.rs: `align_up`, and `HugeAllocation`, a mapping of huge pages that holds `count`
-- initialised values. The mapping's memory is a function from indices to the values written.
use kernelkit.Common.{
  ℕ, zero, suc, ◌+◌, ◌-◌, ◌*◌, ◌%◌, true, ◌||◌, List, [], ◌∷◌, Option, none, some, ltb, leb, ◌==◌,
  if◌then◌else◌,
}
use kernelkit.Errors.{
  Result, ok, err, panicked, ok_or, system, custom, invalid_data, text, number, joined,
  allocation_overflow,
}
use kernelkit.Lengths.{usize_max, TypeInfo, checked_len}
use kernelkit.Machine.{Os, State, M, pure, lift, ◌>>=◌, call}
use kernelkit.Machine.Syscalls as Sys

-- `HUGEPAGE_BYTES`
abbrev pub hugepage_bytes : ℕ
hugepage_bytes = 2 * 1024 * 1024

-- `align_up`, with `checked_add` in `usize`
unfoldable pub align_up : ℕ → ℕ → Option ℕ
align_up value alignment =
    if value % alignment == 0
    then some value
    else if leb (value + (alignment - value % alignment)) usize_max
    then some (value + (alignment - value % alignment))
    else none

abbrev pub Slots : Type 0 → Type 0
Slots A = ℕ → Option A

abbrev pub empty_slots : {A : Type 0} → Slots A
empty_slots i = none

abbrev pub write : {A : Type 0} → ℕ → A → Slots A → Slots A
write i a slots j = if i == j then some a else slots j

-- The `n` values from index `i` on; `none` if one of them was never written.
unfoldable pub read : {A : Type 0} → Slots A → ℕ → ℕ → Option (List A)
read slots i zero = some []
read slots i (suc n) = elim (slots i) [
  | none ↦ none
  | some a ↦ elim (read slots (suc i) n) [ none ↦ none | some as' ↦ some (a ∷ as') ]
]

-- `HugeAllocation`
pub record HugeAllocation (A : Type 0) : Type 0 where
  pub ptr : ℕ
  pub count : ℕ
  pub map_len : ℕ
  pub slots : Slots A

-- `InitGuard`
pub record InitGuard : Type 0 where
  pub ptr : ℕ
  pub map_len : ℕ
  pub initialized : ℕ

-- `HugeAllocation::as_slice`: `from_raw_parts(ptr, count)`
unfoldable pub as_slice : {A : Type 0} → HugeAllocation A → Option (List A)
as_slice a = read a.slots 0 a.count

-- `HugeAllocation::as_mut_slice`: the store `slice[i] = a`, which panics past the end.
unfoldable pub as_mut_slice : {A : Type 0} → HugeAllocation A → ℕ → A → Result (HugeAllocation A)
as_mut_slice allocation i a =
    if ltb i allocation.count
    then ok (record allocation { slots = write i a allocation.slots })
    else panicked

module _ (os : Os) where
  -- `Drop for InitGuard`
  unfoldable pub drop_guard : InitGuard → State → State
  drop_guard guard s =
      Sys.munmap os guard.ptr guard.map_len
        (if ltb 0 guard.initialized then Sys.drop_values os guard.ptr guard.initialized s else s)

  -- `Drop for HugeAllocation`
  unfoldable pub drop : {A : Type 0} → HugeAllocation A → State → State
  drop a s = Sys.munmap os a.ptr a.map_len (Sys.drop_values os a.ptr a.count s)

  -- The loop over `index` in `HugeAllocation::new`, with the rounds left. A panic of
  -- `T::default()` drops the guard.
  unfoldable pub init : {A : Type 0} → (ℕ → Option A) → ℕ → ℕ → InitGuard → Slots A → M (Slots A)
  unfolding drop_guard
  init default index zero guard slots s = (ok slots, s)
  init default index (suc n) guard slots s = elim (default index) [
    | none ↦ (panicked, drop_guard guard s)
    | some a ↦
        init default (suc index) n (record guard { initialized = guard.initialized + 1 })
          (write index a slots) s
  ]

  abbrev null_mapping : {A : Type 0} → ℕ → M (Option (HugeAllocation A))
  null_mapping map_len s =
      (err (system "mmap" (os.last_error s.calls)), Sys.munmap os zero map_len s)

  -- `NonNull::new`: the error is read before the unmapping.
  abbrev fill : {A : Type 0} → (ℕ → Option A) → ℕ → ℕ → ℕ → M (Option (HugeAllocation A))
  fill default count map_len zero = null_mapping map_len
  fill default count map_len (suc p) = do
    slots ←
        init default 0 count (record { ptr = suc p; map_len = map_len; initialized = 0 })
          empty_slots
    pure (some (record { ptr = suc p; count = count; map_len = map_len; slots = slots }))

  abbrev misaligned : {A : Type 0} → TypeInfo → ℕ → ℕ → M (Option (HugeAllocation A))
  misaligned T raw map_len s = (
    err (
        system "mmap(align)" (
          custom invalid_data (
            joined (joined (text "hugepage mapping alignment ") (number raw))
              (joined (text " does not satisfy type alignment ") (number T.align))))),
    Sys.munmap os raw map_len s,
  )

  abbrev use_mapping :
      {A : Type 0} → TypeInfo → (ℕ → Option A) → ℕ → ℕ → Option ℕ → M (Option (HugeAllocation A))
  use_mapping T default count map_len none = pure none
  use_mapping T default count map_len (some raw) =
      if raw % T.align == 0 then fill default count map_len raw else misaligned T raw map_len

  -- `HugeAllocation::new`
  unfoldable pub new : {A : Type 0} → TypeInfo → (ℕ → Option A) → ℕ → M (Option (HugeAllocation A))
  new T default count = if count == 0 || T.size == 0 then pure none else do
    byte_len ← lift (checked_len T count)
    map_len ←
        lift (ok_or (align_up byte_len hugepage_bytes) (allocation_overflow count T.type_name))
    raw_ptr ← call (Sys.mmap_anon os map_len true)
    use_mapping T default count map_len raw_ptr
