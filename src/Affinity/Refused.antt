-- ===== src/Affinity/Refused.antt =====
-- src/affinity.rs: the errors of a text that is not read as a mask.
use kernelkit.Common.{
  ℕ, zero, suc, ◌+◌, ◌^◌, ◌<◌, ◌≤◌, ◌≡◌, refl, sym, ◌∙◌, ltb, List, [], ◌∷◌, ◌⊎◌, inl, inr, arith,
  length, Bool-cases,
}
use mathlib.Core.List.{reverse, Mem, mem-cons_self, mem-cons_of_mem}
use kernelkit.Errors.{Error, Result, ok, err, panicked, ◌>>=◌}
use kernelkit.Text.{Text, trim, split}
use kernelkit.Affinity.IrqMask.{
  parse_irq_affinity, parse_chunk, push_bits, push_bit, push_groups, has_bit, malformed_chunk,
  index_overflow,
}
use kernelkit.Affinity.Masks.{push_bits_lem}

-- How a chain of two steps fails: in the first, or in the second.
bind-err :
    {A B : Type 0} (m : Result A) (f : A → Result B) (e : Error)
    → m >>= f ≡ err e
    → (m ≡ err e) ⊎ ((a : A) × (m ≡ ok a) × (f a ≡ err e))
bind-err (ok a) f e h = inr (a, refl, h)
bind-err (err e') f e h = inl cc
bind-err panicked f e h = absurd (cc)

push_bit-err :
    (group_idx mask bit : ℕ) (cores : List ℕ) (e : Error)
    → push_bit group_idx mask bit cores ≡ err e
    → e ≡ index_overflow
unfolding has_bit
push_bit-err g mask bit cores e h = ground arith

push_bits-err :
    (group_idx mask bit n : ℕ) (cores : List ℕ) (e : Error)
    → push_bits group_idx mask bit n cores ≡ err e
    → e ≡ index_overflow
unfolding push_bits
push_bits-err g mask bit zero cores e h = ground arith
push_bits-err g mask bit (suc n) cores e h =
    elim (bind-err (push_bit g mask bit cores) (push_bits g mask (suc bit) n) e h) [
      | inl first ↦ push_bit-err g mask bit cores e first
      | inr (cores', _, later) ↦ push_bits-err g mask (suc bit) n cores' e later
    ]

push_bits-large :
    (group_idx mask : ℕ) (cores : List ℕ) (e : Error)
    → push_bits group_idx mask 0 32 cores ≡ err e
    → 2 ^ 27 ≤ group_idx
push_bits-large g mask cores e h = elim (Bool-cases (ltb g (2 ^ 27))) [
  | inl small ↦ absurd (refused (sym (push_bits_lem g mask 0 32 cores (ground arith)) ∙ h))
  | inr large ↦ ground arith
]
  where
    refused : {xs : List ℕ} → ◌≡◌ {A = Result (List ℕ)} (ok xs) (err e) → ⊥
    refused eq = cc

parse_chunk-err : (chunk : Text) (e : Error) → parse_chunk chunk ≡ err e → e ≡ malformed_chunk chunk
unfolding parse_chunk
parse_chunk-err chunk e h = grind arith

-- The error names a group that is no mask, or there are more than 2 ^ 27 groups and a core has no
-- number in `u32`.
abbrev pub Names : ℕ → List Text → Error → Type 0
Names group_idx chunks e =
    ((chunk : Text) × Mem chunk chunks × (parse_chunk chunk ≡ err e) × (e ≡ malformed_chunk chunk))
    ⊎ ((e ≡ index_overflow) × (2 ^ 27 < group_idx + length chunks))

push_groups-err :
    (group_idx : ℕ) (chunks : List Text) (cores : List ℕ) (e : Error)
    → push_groups group_idx chunks cores ≡ err e
    → Names group_idx chunks e
unfolding push_groups
push_groups-err g [] cores e h = absurd (cc)
push_groups-err g (chunk ∷ chunks) cores e h = elim (bind-err (parse_chunk chunk) _ e h) [
  | inl bad ↦ inl (chunk, mem-cons_self, bad, parse_chunk-err chunk e bad)
  | inr (mask, _, h') ↦
      elim (bind-err (push_bits g mask 0 32 cores) (push_groups (suc g) chunks) e h') [
        | inl large ↦ inr (
          push_bits-err g mask 0 32 cores e large,
          omega (arith, push_bits-large g mask cores e large),
        )
        | inr (cores', _, later) ↦ elim (push_groups-err (suc g) chunks cores' e later) [
          | inl (bad, found, fails, named) ↦ inl (bad, mem-cons_of_mem chunk found, fails, named)
          | inr (named, many) ↦ inr (named, omega (arith, many))
        ]
      ]
]

-- A text that is not read gives the error that names one of its groups, which is no mask, or says that
-- the number of a core is not a `u32`; that one takes more than 2 ^ 27 groups.
pub parse_irq_affinity-err :
    (content : Text) (e : Error)
    → parse_irq_affinity content ≡ err e
    → Names 0 (reverse (split b',' (trim content))) e
unfolding parse_irq_affinity
parse_irq_affinity-err content e h = push_groups-err 0 (reverse (split b',' (trim content))) [] e h
