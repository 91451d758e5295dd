-- ===== src/Affinity/Masks.antt =====
-- src/affinity.rs: the mask that pins a thread, and the cores that one group of an interrupt's mask
-- names.
use kernelkit.Common.{
  ℕ, zero, suc, ◌+◌, ◌*◌, ◌^◌, ◌≤◌, ◌≡◌, refl, ap, List, [], ◌∷◌, ◌++◌, append_assoc, append-nil,
  arith, length, if◌then◌else◌,
}
use kernelkit.Errors.{Result, ok, err, panicked, ◌>>=◌}
use mathlib.Core.List.{reverse}
use kernelkit.Text.{Text, trim, split}
use kernelkit.Affinity.IrqMask.{has_bit, push_bits, push_groups, parse_chunk, parse_irq_affinity}

-- The cores of the bits that are set, in order.
abbrev pub cores_of : ℕ → ℕ → ℕ → ℕ → List ℕ
cores_of group_idx mask bit zero = []
cores_of group_idx mask bit (suc n) =
    let rest = cores_of group_idx mask (suc bit) n in
    if has_bit mask bit then (group_idx * 32 + bit) ∷ rest else rest

-- Where the group's cores fit in a `u32`, the loop over its bits appends exactly the cores of the
-- bits that are set, in increasing order, to those found before.
pub push_bits_lem :
    (group_idx mask bit n : ℕ) (cores : List ℕ)
    → group_idx * 32 + bit + n ≤ 2 ^ 32
    → push_bits group_idx mask bit n cores ≡ ok (cores ++ cores_of group_idx mask bit n)
unfolding push_bits
push_bits_lem group_idx mask bit zero cores fits = rw append-nil
push_bits_lem group_idx mask bit (suc n) cores fits =
    let ih = λ (c : List ℕ). push_bits_lem group_idx mask (suc bit) n c (omega arith) in
    grind (arith, append_assoc, ih)

-- The groups, each read on its own.
abbrev pub masks_of : List Text → Result (List ℕ)
masks_of [] = ok []
masks_of (chunk ∷ chunks) =
    parse_chunk chunk >>= λ mask. masks_of chunks >>= λ masks. ok (mask ∷ masks)

abbrev pub cores_of_groups : ℕ → List ℕ → List ℕ
cores_of_groups group_idx [] = []
cores_of_groups group_idx (mask ∷ masks) =
    cores_of group_idx mask 0 32 ++ cores_of_groups (suc group_idx) masks

pub bind-ok :
    {A B : Type 0} (m : Result A) (f : A → Result B) (b : B)
    → m >>= f ≡ ok b
    → (a : A) × (m ≡ ok a) × (f a ≡ ok b)
bind-ok (ok a) f b h = (a, refl, h)
bind-ok (err e) f b h = cc
bind-ok panicked f b h = cc

push_groups_step :
    (group_idx : ℕ) (chunk : Text) (chunks : List Text) (cores : List ℕ) (mask : ℕ) (more : List ℕ)
    → parse_chunk chunk ≡ ok mask
    → ((c : List ℕ)
        → push_groups (suc group_idx) chunks c ≡ ok (c ++ cores_of_groups (suc group_idx) more))
    → (group_idx + length (mask ∷ more)) * 32 ≤ 2 ^ 32
    → push_groups group_idx (chunk ∷ chunks) cores
      ≡ ok (cores ++ cores_of_groups group_idx (mask ∷ more))
unfolding push_groups
push_groups_step group_idx chunk chunks cores mask more parsed ih fits = rw parsed (
    rw (push_bits_lem group_idx mask 0 32 cores (omega arith))
      (rw (ih (cores ++ cores_of group_idx mask 0 32)) (rw append_assoc)))

push_groups_lem :
    (group_idx : ℕ) (chunks : List Text) (cores masks : List ℕ)
    → masks_of chunks ≡ ok masks
    → (group_idx + length masks) * 32 ≤ 2 ^ 32
    → push_groups group_idx chunks cores ≡ ok (cores ++ cores_of_groups group_idx masks)
unfolding push_groups
push_groups_lem group_idx [] cores masks h fits = grind (arith, append-nil)
push_groups_lem group_idx (chunk ∷ chunks) cores masks h fits =
    let (mask, parsed, h') = bind-ok (parse_chunk chunk) _ masks h in
    let (more, parsed', e) = bind-ok (masks_of chunks) _ masks h' in
    let same : masks ≡ mask ∷ more = ground arith in
    rw same (
      push_groups_step group_idx chunk chunks cores mask more parsed
        (λ c. push_groups_lem (suc group_idx) chunks c more parsed' (omega (arith, ap length same)))
        (omega (arith, ap length same)))

-- Where each group is a mask and the cores fit in a `u32`, the text names exactly the cores of the
-- bits that are set, 32 to a group, the last group first.
pub parse_irq_affinity_lem :
    (content : Text) (masks : List ℕ)
    → masks_of (reverse (split b',' (trim content))) ≡ ok masks
    → length masks * 32 ≤ 2 ^ 32
    → parse_irq_affinity content ≡ ok (cores_of_groups 0 masks)
unfolding parse_irq_affinity
parse_irq_affinity_lem content masks h fits =
    push_groups_lem 0 (reverse (split b',' (trim content))) [] masks h (omega arith)
