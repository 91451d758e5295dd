-- ===== src/Portable/Prefetch.antt =====
-- src/prefetch.rs on every architecture that it names. The state is the list of the addresses that are
-- touched, latest first, each with the instruction.
use kernelkit.Common.{
  ℕ, zero, suc, ◌+◌, min, max, Bool, false, ◌||◌, List, [], ◌∷◌, ltb, ◌==◌, if◌then◌else◌, Option,
  none, some, ◌≡◌, refl, ap, Bool-cases, inl, inr,
}
use mathlib.Core.List.{map}
use kernelkit.Lengths.{usize_max}
use kernelkit.Prefetch as Linux
use kernelkit.Prefetch.{Hint, t0, t1, nta, Touched, max_prefetch_bytes}
use kernelkit.Portable.CpuFeatures.{Arch, x86, x86_64, aarch64, arm, other_arch}

-- `_mm_prefetch` with its hint, `prfm` with its operation, and `pld`
pub data Instruction : Type 0 where
  mm_prefetch : Hint → Instruction
  prfm_pldl1keep prfm_pstl1keep prfm_pldl1strm pld : Instruction

abbrev pub Issued : Type 0
Issued = List (ℕ × Instruction)

-- The instruction of `prefetch_impl`, for a write or a read.
unfoldable pub instruction : Arch → Bool → Option Instruction
instruction x86 write = some (mm_prefetch (if write then t1 else t0))
instruction x86_64 write = some (mm_prefetch (if write then t1 else t0))
instruction aarch64 write = some (if write then prfm_pstl1keep else prfm_pldl1keep)
instruction arm write = some pld
instruction other_arch write = none

-- The instruction of `prefetch_nontemporal`; there is none for 32-bit ARM.
unfoldable pub streaming : Arch → Option Instruction
streaming x86 = some (mm_prefetch nta)
streaming x86_64 = some (mm_prefetch nta)
streaming aarch64 = some prfm_pldl1strm
streaming arm = none
streaming other_arch = none

abbrev issue : ℕ → Option Instruction → Issued → Issued
issue zero i issued = issued
issue (suc p) none issued = issued
issue (suc p) (some i) issued = (suc p, i) ∷ issued

module _ (arch : Arch) where
  -- `prefetch_impl`
  unfoldable pub prefetch_impl : ℕ → Bool → Issued → Issued
  prefetch_impl ptr write issued = issue ptr (instruction arch write) issued

  -- `prefetch_nontemporal`
  unfoldable pub prefetch_nontemporal : ℕ → Issued → Issued
  prefetch_nontemporal ptr issued = issue ptr (streaming arch) issued

  -- The loop over `offset`, with fuel. `offset.saturating_add(cache_line)`.
  unfoldable pub touch_lines : ℕ → ℕ → ℕ → ℕ → ℕ → Issued → Issued
  touch_lines zero ptr len cache_line offset issued = issued
  touch_lines (suc fuel) ptr len cache_line offset issued =
      let rest =
        touch_lines fuel ptr len cache_line (min (offset + cache_line) usize_max)
          (prefetch_impl (ptr + offset) false issued) in
      if ltb offset len then rest else issued

  -- `prefetch_range`, for the line size that `detect` gives, with the length for fuel.
  unfoldable pub prefetch_range : ℕ → ℕ → ℕ → Issued → Issued
  prefetch_range cache_line_size ptr len issued =
      let n = min len max_prefetch_bytes in
      if ptr == 0 || len == 0 then issued else touch_lines n ptr n (max cache_line_size 1) 0 issued

abbrev addresses : Issued → List ℕ
addresses = map (λ l. l.0)

abbrev addresses_touched : Touched → List ℕ
addresses_touched = map (λ l. l.0)

impl-addresses :
    (arch : Arch) (i : Instruction) (ptr : ℕ) (issued : Issued) (touched : Touched)
    → instruction arch false ≡ some i
    → addresses issued ≡ addresses_touched touched
    → addresses (prefetch_impl arch ptr false issued)
      ≡ addresses_touched (Linux.prefetch_impl ptr false touched)
unfolding prefetch_impl Linux.prefetch_impl
impl-addresses arch i zero issued touched has same = same
impl-addresses arch i (suc p) issued touched has same = rw has (ap (λ l. suc p ∷ l) same)

touch_lines-addresses :
    (arch : Arch) (i : Instruction) (fuel ptr len cache_line offset : ℕ) (issued : Issued)
    (touched : Touched)
    → instruction arch false ≡ some i
    → addresses issued ≡ addresses_touched touched
    → addresses (touch_lines arch fuel ptr len cache_line offset issued)
      ≡ addresses_touched (Linux.touch_lines fuel ptr len cache_line offset touched)
unfolding touch_lines Linux.touch_lines
touch_lines-addresses arch i zero ptr len line offset issued touched has same = same
touch_lines-addresses arch i (suc fuel) ptr len line offset issued touched has same =
    let first = impl-addresses arch i (ptr + offset) issued touched has same in
    let ih =
      touch_lines-addresses arch i fuel ptr len line (min (offset + line) usize_max)
        (prefetch_impl arch (ptr + offset) false issued)
        (Linux.prefetch_impl (ptr + offset) false touched) has first in
    elim (Bool-cases (ltb offset len)) [ inl e ↦ rw e ih | inr e ↦ rw e same ]

-- On an architecture with an instruction for reads, a range is prefetched at the same addresses, in the
-- same order, as on x86_64.
pub prefetch_range-addresses :
    (arch : Arch) (i : Instruction) (cache_line_size ptr len : ℕ)
    → instruction arch false ≡ some i
    → addresses (prefetch_range arch cache_line_size ptr len [])
      ≡ addresses_touched (Linux.prefetch_range cache_line_size ptr len [])
unfolding prefetch_range Linux.prefetch_range
prefetch_range-addresses arch i line ptr len has = elim (Bool-cases (ptr == 0 || len == 0)) [
  | inl e ↦ rw e refl
  | inr e ↦ rw e (
      touch_lines-addresses arch i (min len max_prefetch_bytes) ptr (min len max_prefetch_bytes)
        (max line 1) 0 [] [] has refl)
]
