-- ===== src/Affinity/Listed.antt =====
-- src/affinity.rs: a core in the list of an interrupt against its bit in the mask.
use kernelkit.Common.{
  ℕ, zero, suc, ◌+◌, ◌-◌, ◌*◌, ◌/◌, ◌%◌, ◌^◌, ◌≤◌, ◌≡◌, refl, sym, ◌∙◌, Bool, false, ◌&&◌, ◌||◌,
  List, [], ◌∷◌, ◌++◌, arith, length, get_or, leb, ltb, ◌==◌, Bool-cases, inl, inr,
}
use mathlib.Core.List.{reverse}
use kernelkit.Errors.{ok}
use kernelkit.Text.{Text, trim, split}
use kernelkit.Affinity.IrqMask.{has_bit, parse_irq_affinity}
use kernelkit.Affinity.Masks.{cores_of, cores_of_groups, masks_of, parse_irq_affinity_lem}

abbrev pub contains : ℕ → List ℕ → Bool
contains core [] = false
contains core (c ∷ cores) = c == core || contains core cores

contains-append :
    (core : ℕ) (xs ys : List ℕ) → contains core (xs ++ ys) ≡ (contains core xs || contains core ys)
contains-append core [] ys = refl
contains-append core (x ∷ xs) ys = ground (arith, contains-append core xs ys)

has_bit_zero : (bit : ℕ) → has_bit 0 bit ≡ false
unfolding has_bit
has_bit_zero bit = grind arith

contains-cores_of :
    (core group_idx mask bit n : ℕ)
    → contains core (cores_of group_idx mask bit n) ≡ (
        leb (group_idx * 32 + bit) core
        && ltb core (group_idx * 32 + bit + n)
        && has_bit mask (core - group_idx * 32))
contains-cores_of core g mask bit zero = ground arith
contains-cores_of core g mask bit (suc n) =
    let ih = contains-cores_of core g mask (suc bit) n in
    elim (Bool-cases (g * 32 + bit == core)) [
      | inl e ↦ let same : core - g * 32 ≡ bit = ground arith in rw same (ground (arith, ih))
      | inr e ↦ ground (arith, ih)
    ]

-- The bit of a core, in the masks of the groups from one on.
abbrev pub bit_of : ℕ → List ℕ → ℕ → Bool
bit_of group_idx masks core =
    leb (group_idx * 32) core
    && has_bit (get_or masks ((core - group_idx * 32) / 32) 0) ((core - group_idx * 32) % 32)

bit_of_cons :
    (core g mask : ℕ) (masks : List ℕ)
    → bit_of g (mask ∷ masks) core ≡ (
        (leb (g * 32 + 0) core && ltb core (g * 32 + 0 + 32) && has_bit mask (core - g * 32))
        || bit_of (suc g) masks core)
bit_of_cons core g mask masks = elim (Bool-cases (leb (g * 32) core)) [
  | inr below ↦ ground arith
  | inl from ↦ elim (Bool-cases (ltb core (g * 32 + 32))) [
    | inl inside ↦
        let q : (core - g * 32) / 32 ≡ 0 = ground arith in
        let r : (core - g * 32) % 32 ≡ core - g * 32 = ground arith in rw q (rw r (ground arith))
    | inr beyond ↦
        let q : (core - g * 32) / 32 ≡ suc ((core - suc g * 32) / 32) = ground arith in
        let r : (core - g * 32) % 32 ≡ (core - suc g * 32) % 32 = ground arith in
        rw q (rw r (ground arith))
  ]
]

contains-front :
    (core g mask : ℕ) (masks front rest : List ℕ)
    → contains core front
      ≡ (leb (g * 32 + 0) core && ltb core (g * 32 + 0 + 32) && has_bit mask (core - g * 32))
    → contains core rest ≡ bit_of (suc g) masks core
    → contains core (front ++ rest) ≡ bit_of g (mask ∷ masks) core
contains-front core g mask masks front rest h k =
    contains-append core front rest ∙ rw h (rw k (sym (bit_of_cons core g mask masks)))

contains-cores_of_groups :
    (core group_idx : ℕ) (masks : List ℕ)
    → contains core (cores_of_groups group_idx masks) ≡ bit_of group_idx masks core
contains-cores_of_groups core g [] = rw (has_bit_zero ((core - g * 32) % 32)) (ground arith)
contains-cores_of_groups core g (mask ∷ masks) =
    contains-front core g mask masks (cores_of g mask 0 32) (cores_of_groups (suc g) masks)
      (contains-cores_of core g mask 0 32) (contains-cores_of_groups core (suc g) masks)

-- Where each group of the text is a mask and the cores fit in a `u32`, the text is read, and a core is
-- in its list exactly if its bit is set: bit `core % 32` of the mask number `core / 32`, counted from
-- the last group.
pub parse_irq_affinity-contains :
    (content : Text) (masks : List ℕ) (core : ℕ)
    → masks_of (reverse (split b',' (trim content))) ≡ ok masks
    → length masks * 32 ≤ 2 ^ 32
    → (cores : List ℕ) × (parse_irq_affinity content ≡ ok cores)
      × (contains core cores ≡ has_bit (get_or masks (core / 32) 0) (core % 32))
parse_irq_affinity-contains content masks core h fits = (
  cores_of_groups 0 masks,
  parse_irq_affinity_lem content masks h fits,
  contains-cores_of_groups core 0 masks ∙ ground arith,
)
