-- ===== src/Affinity/Ascending.antt =====
-- src/affinity.rs: the order in which the cores of a text are listed.
use kernelkit.Common.{
  ℕ, zero, suc, ◌+◌, ◌*◌, ◌≤◌, ◌≡◌, sym, ◌∙◌, List, [], ◌∷◌, ◌++◌, arith, length, length-reverse,
  All, Bool-cases, inl, inr,
}
use mathlib.Core.List.{reverse}
use mathlib.Core.Path.{subst}
use kernelkit.Errors.{ok}
use kernelkit.Text.{Text, trim, split}
use kernelkit.Affinity.IrqMask.{parse_irq_affinity, parse_chunk, has_bit}
use kernelkit.Affinity.Masks.{cores_of, cores_of_groups, masks_of, bind-ok}
use kernelkit.Affinity.Accepted.{IsU32, parse_irq_affinity_iff}

-- A list that goes up, from `low` on and below `high`.
abbrev pub IsAscending : ℕ → ℕ → List ℕ → Type 0
IsAscending low high [] = low ≤ high
IsAscending low high (core ∷ cores) = (low ≤ core) × IsAscending (suc core) high cores

IsAscending-widen :
    (low low' high high' : ℕ) (cores : List ℕ)
    → low ≤ low'
    → high' ≤ high
    → IsAscending low' high' cores
    → IsAscending low high cores
IsAscending-widen low low' high high' [] h h' a = omega arith
IsAscending-widen low low' high high' (core ∷ cores) h h' (above, rest) =
    (omega arith, IsAscending-widen (suc core) (suc core) high high' cores (omega arith) h' rest)

IsAscending-append :
    (low middle high : ℕ) (front back : List ℕ)
    → IsAscending low middle front
    → IsAscending middle high back
    → IsAscending low high (front ++ back)
IsAscending-append low middle high [] back h h' =
    IsAscending-widen low middle high high back h (omega arith) h'
IsAscending-append low middle high (core ∷ front) back (above, rest) h' =
    (above, IsAscending-append (suc core) middle high front back rest h')

cores_of-IsAscending :
    (group_idx mask bit n : ℕ)
    → IsAscending (group_idx * 32 + bit) (group_idx * 32 + bit + n) (cores_of group_idx mask bit n)
cores_of-IsAscending g mask bit zero = omega arith
cores_of-IsAscending g mask bit (suc n) =
    let at = g * 32 + bit in
    let cores = cores_of g mask (suc bit) n in
    let rest : IsAscending (suc at) (at + suc n) cores =
      IsAscending-widen (suc at) (g * 32 + suc bit) (at + suc n) (g * 32 + suc bit + n) cores
        (omega arith) (omega arith) (cores_of-IsAscending g mask (suc bit) n) in
    elim (Bool-cases (has_bit mask bit)) [
      | inl e ↦ rw e (omega arith, rest)
      | inr e ↦ rw e (
          IsAscending-widen at (suc at) (at + suc n) (at + suc n) cores (omega arith) (omega arith)
            rest)
    ]

cores_of_groups-IsAscending :
    (group_idx : ℕ) (masks : List ℕ)
    → IsAscending
        (group_idx * 32)
        ((group_idx + length masks) * 32)
        (cores_of_groups group_idx masks)
cores_of_groups-IsAscending g [] = omega arith
cores_of_groups-IsAscending g (mask ∷ masks) =
    let high = (g + suc (length masks)) * 32 in
    let back = cores_of_groups (suc g) masks in
    IsAscending-append (g * 32) (g * 32 + 32) high (cores_of g mask 0 32) back
      (IsAscending-widen (g * 32) (g * 32 + 0) (g * 32 + 32) (g * 32 + 0 + 32) _ (omega arith)
        (omega arith) (cores_of-IsAscending g mask 0 32))
      (IsAscending-widen (g * 32 + 32) (suc g * 32) high ((suc g + length masks) * 32) back
        (omega arith) (omega arith) (cores_of_groups-IsAscending (suc g) masks))

length-masks_of :
    (chunks : List Text) (masks : List ℕ)
    → masks_of chunks ≡ ok masks
    → length masks ≡ length chunks
length-masks_of [] masks h = grind arith
length-masks_of (chunk ∷ chunks) masks h =
    let (mask, parsed, h') = bind-ok (parse_chunk chunk) _ masks h in
    let (more, parsed', e) = bind-ok (masks_of chunks) _ masks h' in
    let ih = length-masks_of chunks more parsed' in grind arith

-- Whatever the text, the list of cores that is read goes up, so that no core is in it twice; each core
-- is a `u32`, and below 32 times the number of the text's groups.
pub parse_irq_affinity-IsAscending :
    (content : Text) (cores : List ℕ)
    → parse_irq_affinity content ≡ ok cores
    → All IsU32 cores × IsAscending 0 (length (split b',' (trim content)) * 32) cores
parse_irq_affinity-IsAscending content cores h =
    let chunks = split b',' (trim content) in
    let (masks, parsed, small, same) = (parse_irq_affinity_iff content cores).0 h in
    let many : length masks ≡ length chunks =
      length-masks_of (reverse chunks) masks parsed ∙ length-reverse chunks in
    (
      subst (All IsU32) (sym same) small,
      subst (IsAscending 0 (length chunks * 32)) (sym same) (
          IsAscending-widen 0 (0 * 32) (length chunks * 32) ((0 + length masks) * 32)
            (cores_of_groups 0 masks) (omega arith) (omega (arith, many))
            (cores_of_groups-IsAscending 0 masks)),
    )
