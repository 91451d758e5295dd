-- ===== src/Affinity/Accepted.antt =====
-- src/affinity.rs: which texts are read as a mask, and which error the others give.
use kernelkit.Common.{
  ℕ, zero, suc, ◌^◌, ◌<◌, ◌≡◌, ◌↔◌, refl, sym, ap, ◌∙◌, List, [], ◌∷◌, ◌++◌, append_assoc,
  append-nil, arith, All, All-append, All-append_left, All-append_right, Bool-cases, inl, inr,
}
use mathlib.Core.List.{reverse}
use mathlib.Core.Path.{subst}
use kernelkit.Errors.{Result, ok, ◌>>=◌}
use kernelkit.Text.{Text, trim, split}
use kernelkit.Affinity.IrqMask.{
  parse_irq_affinity, parse_chunk, push_bits, push_bit, push_groups, has_bit,
}
use kernelkit.Affinity.Masks.{cores_of, cores_of_groups, masks_of, bind-ok}

abbrev pub IsU32 : ℕ → Type 0
IsU32 n = n < 2 ^ 32

-- The cores `found` are appended where all of them are `u32` values, and only there.
abbrev Appends : (List ℕ → Result (List ℕ)) → List ℕ → Type 0
Appends f found =
    (cores result : List ℕ) → (f cores ≡ ok result) ↔ (All IsU32 found × (result ≡ cores ++ found))

push_bit-Appends :
    (group_idx mask bit : ℕ) → Appends (push_bit group_idx mask bit) (cores_of group_idx mask bit 1)
push_bit-Appends g mask bit cores result = elim (Bool-cases (has_bit mask bit)) [
  | inr e ↦ rw e (grind (arith, append-nil))
  | inl e ↦ rw e (grind arith)
]

then-Appends :
    (f k : List ℕ → Result (List ℕ)) (front back : List ℕ)
    → Appends f front
    → Appends k back
    → Appends (λ cores. f cores >>= k) (front ++ back)
then-Appends f k front back h h' cores result = (
  λ e.
      let (middle, one, rest) = bind-ok (f cores) k result e in
      let (small, same) = (h cores middle).0 one in
      let (small', same') = (h' middle result).0 rest in
      (All-append IsU32 front back small small', grind (arith, append_assoc)),
  λ (small, same).
      let one = (h cores (cores ++ front)).1 (All-append_left IsU32 front back small, refl) in
      let rest =
        (h' (cores ++ front) result).1
          (All-append_right IsU32 front back small, grind (arith, append_assoc)) in
      rw one rest,
)

cores_of-suc :
    (group_idx mask bit n : ℕ)
    → cores_of group_idx mask bit (suc n)
      ≡ cores_of group_idx mask bit 1 ++ cores_of group_idx mask (suc bit) n
cores_of-suc g mask bit n = ground arith

push_bits-Appends :
    (group_idx mask bit n : ℕ)
    → Appends (push_bits group_idx mask bit n) (cores_of group_idx mask bit n)
unfolding push_bits
push_bits-Appends g mask bit zero = λ cores result. grind (arith, append-nil)
push_bits-Appends g mask bit (suc n) = rw (cores_of-suc g mask bit n) (
    then-Appends (push_bit g mask bit) (push_bits g mask (suc bit) n) (cores_of g mask bit 1)
      (cores_of g mask (suc bit) n) (push_bit-Appends g mask bit)
      (push_bits-Appends g mask (suc bit) n))

push_groups_sound :
    (group_idx : ℕ) (chunks : List Text) (cores result : List ℕ)
    → push_groups group_idx chunks cores ≡ ok result
    → (masks : List ℕ) × (masks_of chunks ≡ ok masks)
      × All IsU32 (cores_of_groups group_idx masks)
      × (result ≡ cores ++ cores_of_groups group_idx masks)
unfolding push_groups
push_groups_sound g [] cores result h = ([], refl, tt, grind (arith, append-nil))
push_groups_sound g (chunk ∷ chunks) cores result h =
    let (mask, parsed, h') = bind-ok (parse_chunk chunk) _ result h in
    let (middle, one, rest) =
      bind-ok (push_bits g mask 0 32 cores) (push_groups (suc g) chunks) result h' in
    let (masks, parsed', small', same') = push_groups_sound (suc g) chunks middle result rest in
    let (small, same) = (push_bits-Appends g mask 0 32 cores middle).0 one in
    (
      mask ∷ masks,
      grind arith,
      All-append IsU32 (cores_of g mask 0 32) (cores_of_groups (suc g) masks) small small',
      grind (arith, append_assoc),
    )

push_groups_next :
    (group_idx : ℕ) (chunk : Text) (chunks : List Text) (cores middle : List ℕ) (mask : ℕ)
    (result : Result (List ℕ))
    → parse_chunk chunk ≡ ok mask
    → push_bits group_idx mask 0 32 cores ≡ ok middle
    → push_groups (suc group_idx) chunks middle ≡ result
    → push_groups group_idx (chunk ∷ chunks) cores ≡ result
unfolding push_groups
push_groups_next g chunk chunks cores middle mask result parsed first rest =
    rw parsed (rw first rest)

push_groups_complete :
    (group_idx : ℕ) (chunks : List Text) (cores masks : List ℕ)
    → masks_of chunks ≡ ok masks
    → All IsU32 (cores_of_groups group_idx masks)
    → push_groups group_idx chunks cores ≡ ok (cores ++ cores_of_groups group_idx masks)
unfolding push_groups
push_groups_complete g [] cores masks h small = grind (arith, append-nil)
push_groups_complete g (chunk ∷ chunks) cores masks h small =
    let (mask, parsed, h') = bind-ok (parse_chunk chunk) _ masks h in
    let (more, parsed', e) = bind-ok (masks_of chunks) _ masks h' in
    let same : masks ≡ mask ∷ more = ground arith in
    let front = cores_of g mask 0 32 in
    let back = cores_of_groups (suc g) more in
    let fits : All IsU32 (front ++ back) =
      subst (λ l. All IsU32 (cores_of_groups g l)) same small in
    let first =
      (push_bits-Appends g mask 0 32 cores (cores ++ front)).1
        (All-append_left IsU32 front back fits, refl) in
    let rest =
      push_groups_complete (suc g) chunks (cores ++ front) more parsed'
        (All-append_right IsU32 front back fits) in
    push_groups_next g chunk chunks cores (cores ++ front) mask _ parsed first rest
    ∙ ap (λ l. ok l) (append_assoc cores front back)
    ∙ ap (λ l. ok (cores ++ cores_of_groups g l)) (sym same)

-- A text is read exactly where each of its groups is a mask and the number of each core that has its
-- bit set is a `u32`; the list that is read is that of these cores, group by group from the last.
pub parse_irq_affinity_iff :
    (content : Text) (cores : List ℕ)
    → (parse_irq_affinity content ≡ ok cores) ↔ (
        (masks : List ℕ) × (masks_of (reverse (split b',' (trim content))) ≡ ok masks)
        × All IsU32 (cores_of_groups 0 masks)
        × (cores ≡ cores_of_groups 0 masks))
unfolding parse_irq_affinity
parse_irq_affinity_iff content cores = (
  push_groups_sound 0 (reverse (split b',' (trim content))) [] cores,
  λ (masks, parsed, small, same).
      push_groups_complete 0 (reverse (split b',' (trim content))) [] masks parsed small
      ∙ ap (λ l. ok l) (sym same),
)
