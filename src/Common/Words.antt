-- ===== src/Common/Words.antt =====
-- Sets of small numbers as bits of words of 64: the masks of cores and of nodes.
use Prim.Native.Nat.{ℕ, zero, suc, ◌/◌, ◌%◌, ◌^◌, ◌<◌}
use mathlib.Core.Path.{◌≡◌, refl}
use mathlib.Core.Logic.{◌↔◌, inl, inr}
use mathlib.Core.Bool.{◌&&◌}
use mathlib.Core.List.{List}
use native.Mathlib.Omega.{arith, pow_step}
use native.Mathlib.Nat.{div-eq_of_lt, mul-div-mul_left, zero-div, one-le-pow}
use kernelkit.Common.Tests.{ltb, ◌==◌, if◌then◌else◌, Bool-cases}
use kernelkit.Common.Lists.{get_or, set, replicate, get_or-replicate}

-- Bit `b` of the number that has only bit `a`.
pow_bit : (a b : ℕ) → (2 ^ a / 2 ^ b % 2 ≡ 1) ↔ (b ≡ a)
pow_bit zero zero = (λ h. refl, λ h. refl)
pow_bit zero (suc b) =
    let below : 1 < 2 ^ suc b = omega (arith, pow_step 2 b, one-le-pow b 2 (omega arith)) in
    rw (div-eq_of_lt below) (omega arith)
pow_bit (suc a) zero = omega (arith, pow_step 2 a)
pow_bit (suc a) (suc b) =
    let same : 2 ^ suc a / 2 ^ suc b ≡ 2 ^ a / 2 ^ b =
      rw (pow_step 2 a) (rw (pow_step 2 b) (mul-div-mul_left (2 ^ a) (2 ^ b) (omega arith))) in
    rw same (grind (arith, pow_bit a b))

-- A word of a list of zeros with one word written.
get_or-one :
    (n i j v : ℕ) → get_or (set (replicate n 0) i v) j 0 ≡ (if j == i && ltb i n then v else 0)
get_or-one zero i j v = ground arith
get_or-one (suc n) zero zero v = ground arith
get_or-one (suc n) zero (suc j) v = ground (arith, get_or-replicate n j 0)
get_or-one (suc n) (suc i) zero v = ground arith
get_or-one (suc n) (suc i) (suc j) v = ground (arith, get_or-one n i j v)

-- A number is in a mask where its bit is set: bit `i % 64` of the word `i / 64`.
abbrev pub IsIn : List ℕ → ℕ → Type 0
IsIn mask i = get_or mask (i / 64) 0 / 2 ^ (i % 64) % 2 ≡ 1

-- A mask of `n` words with the one bit of `a`.
pub one_bit :
    (n a i : ℕ) → IsIn (set (replicate n 0) (a / 64) (2 ^ (a % 64))) i ↔ ((i ≡ a) × (a / 64 < n))
one_bit n a i =
    rw (get_or-one n (a / 64) (i / 64) (2 ^ (a % 64)))
      (elim (Bool-cases (i / 64 == a / 64 && ltb (a / 64) n)) [
        | inl e ↦ rw e (grind (arith, pow_bit (a % 64) (i % 64)))
        | inr e ↦ rw e (
          λ h. absurd (omega (arith, h, zero-div (2 ^ (i % 64)))),
          λ (same, below). absurd (grind arith),
        )
      ])
