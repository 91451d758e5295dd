-- ===== src/Affinity/IrqMask.antt =====
-- src/affinity.rs: `parse_irq_affinity` and `read_irq_affinity`. The text is a list of groups of 32
-- bits in hexadecimal, the least significant group last.
use kernelkit.Common.{
  ℕ, zero, suc, ◌+◌, ◌-◌, ◌*◌, ◌/◌, ◌%◌, ◌^◌, String, Bool, List, [], ◌∷◌, ◌++◌, Option, none, some,
  leb, ◌==◌, if◌then◌else◌,
}
use mathlib.Core.List.{reverse}
use kernelkit.Errors.{
  Error, Result, ok, err, ◌>>=◌, ok_or, system, custom, invalid_data, text, code_points, joined,
}
use kernelkit.Text.{Text, codes, trim, split, strip_prefix, from_str_radix, u64_max}
use kernelkit.Machine.{Os, State, M, lift, call}
use kernelkit.Machine as Machine
use kernelkit.Machine.Syscalls as Sys
use kernelkit.FileIdentity.{io}

abbrev pub malformed_chunk : Text → Error
malformed_chunk chunk =
    system "read_irq_affinity"
      (custom invalid_data (joined (text "malformed affinity mask chunk: ") (code_points chunk)))

abbrev pub index_overflow : Error
index_overflow =
    system "read_irq_affinity" (custom invalid_data (text "affinity mask core index overflow"))

abbrev or_else_text : Option Text → Option Text → Text → Text
or_else_text (some s) t whole = s
or_else_text none (some t) whole = t
or_else_text none none whole = whole

-- One group: trimmed, without `0x` or `0X`, in base 16, as a `u64`.
unfoldable pub parse_chunk : Text → Result ℕ
parse_chunk chunk =
    let clean = trim chunk in
    let hex =
      or_else_text (strip_prefix (codes "0x") clean) (strip_prefix (codes "0X") clean) clean in
    ok_or (from_str_radix 16 u64_max hex) (malformed_chunk chunk)

-- `mask & (1 << bit) != 0`
unfoldable pub has_bit : ℕ → ℕ → Bool
has_bit mask bit = mask / 2 ^ bit % 2 == 1

-- `u32::try_from(group_idx * 32 + bit)`
abbrev try_core : ℕ → Result ℕ
try_core n = if leb n (2 ^ 32 - 1) then ok n else err index_overflow

-- One round of the loop over the bits.
abbrev pub push_bit : ℕ → ℕ → ℕ → List ℕ → Result (List ℕ)
push_bit group_idx mask bit cores =
    if has_bit mask bit
    then try_core (group_idx * 32 + bit) >>= (λ core. ok (cores ++ (core ∷ [])))
    else ok cores

-- The loop `for bit in 0..32`, with the rounds left, behind the cores found so far.
unfoldable pub push_bits : ℕ → ℕ → ℕ → ℕ → List ℕ → Result (List ℕ)
push_bits group_idx mask bit zero cores = ok cores
push_bits group_idx mask bit (suc n) cores =
    push_bit group_idx mask bit cores >>= push_bits group_idx mask (suc bit) n

-- The loop over the groups, numbered from the last.
unfoldable pub push_groups : ℕ → List Text → List ℕ → Result (List ℕ)
unfolding push_bits parse_chunk
push_groups group_idx [] cores = ok cores
push_groups group_idx (chunk ∷ chunks) cores = do
  mask ← parse_chunk chunk
  cores' ← push_bits group_idx mask 0 32 cores
  push_groups (suc group_idx) chunks cores'

-- `parse_irq_affinity`
unfoldable pub parse_irq_affinity : Text → Result (List ℕ)
unfolding push_groups
parse_irq_affinity content = push_groups 0 (reverse (split b',' (trim content))) []

-- `read_irq_affinity`, for the path of the interrupt's file
unfoldable pub read_irq_affinity : Os → String → M (List ℕ)
read_irq_affinity os path =
    Machine.◌>>=◌ (io "read_irq_affinity" (Sys.read_text os path))
      λ content. lift (parse_irq_affinity content)
