-- ===== src/Text/Printed.antt =====
-- Numbers as the system prints them, against `from_str_radix`.
use kernelkit.Common.{
  ℕ, zero, suc, ◌+◌, ◌-◌, ◌*◌, ◌/◌, ◌%◌, ◌<◌, ◌≤◌, ◌≡◌, refl, sym, ap, ◌∙◌, [], ◌∷◌, ◌++◌, none,
  some, ltb, leb, if◌then◌else◌, ◌⊎◌, inl, inr, arith, replicate, dec_lt,
}
use native.Mathlib.Nat.{div-add-mod', div-lt_self, mod-lt}
use kernelkit.Text.{Text, to_digit, parse_digits, from_str_radix, checked, parse_u64, u64_max}

abbrev digit : ℕ → ℕ
digit d = if ltb d 10 then b'0' + d else b'a' + (d - 10)

-- The digits of `n` in front of `rest`, for more rounds than `n`.
unfoldable pub print : ℕ → ℕ → ℕ → Text → Text
print radix zero n rest = rest
print radix (suc fuel) n rest =
    let more = print radix fuel (n / radix) (digit (n % radix) ∷ rest) in
    if ltb n radix then digit n ∷ rest else more

-- A number in base `radix`, without leading zeros.
abbrev pub printed : ℕ → ℕ → Text
printed radix n = print radix (suc n) n []

abbrev pub decimal : ℕ → Text
decimal = printed 10

to_digit-digit : (radix d : ℕ) → d < radix → radix ≤ 36 → to_digit radix (digit d) ≡ some d
unfolding to_digit
to_digit-digit radix d below most = ground arith

div-lt : (n radix : ℕ) → 2 ≤ radix → radix ≤ n → n / radix < n
div-lt n radix two le = div-lt_self (omega arith) (omega arith)

parse_digit :
    (radix most d n : ℕ) (rest : Text)
    → d < radix
    → radix ≤ 36
    → parse_digits radix most (digit d ∷ rest) n
      ≡ (if leb (n * radix + d) most then parse_digits radix most rest (n * radix + d) else none)
unfolding parse_digits
parse_digit radix most d n rest below le = rw (to_digit-digit radix d below le, parse_digits) refl

parse-print :
    (radix most fuel n : ℕ) (rest : Text)
    → 2 ≤ radix
    → radix ≤ 36
    → n < fuel
    → parse_digits radix most (print radix fuel n rest) 0
      ≡ (if leb n most then parse_digits radix most rest n else none)
unfolding print
parse-print radix most zero n rest two le more = absurd (omega arith)
parse-print radix most (suc fuel) n rest two le more = elim (dec_lt n radix) [
  | yes below ↦ ground (arith, parse_digit radix most n 0 rest below le)
  | no above ↦
      let small = div-lt n radix two (omega arith) in
      let last = mod-lt n {m = radix} (omega arith) in
      let whole = div-add-mod' n radix in
      let front =
        parse-print radix most fuel (n / radix) (digit (n % radix) ∷ rest) two le (omega arith) in
      let behind = parse_digit radix most (n % radix) (n / radix) rest last le in
      ground (arith, front, behind)
]

abbrev pub IsDigit : ℕ → ℕ → Type 0
IsDigit radix c =
    ((b'0' ≤ c) × (c ≤ b'9') × (c < b'0' + radix)) ⊎ ((b'a' ≤ c) × (c < b'a' + radix - 10))

-- A predicate of every character.
abbrev pub Every : (ℕ → Type 0) → Text → Type 0
Every P [] = Unit {0}
Every P (c ∷ s) = P c × Every P s

digit-IsDigit : (radix d : ℕ) → d < radix → IsDigit radix (digit d)
digit-IsDigit radix d below = elim (dec_lt d 10) [
  | yes small ↦ inl (ground arith)
  | no large ↦ inr (ground arith)
]

-- A printed number has at least one character, and digits only.
print-IsDigit :
    (radix fuel n : ℕ) (rest : Text)
    → 2 ≤ radix
    → n < fuel
    → Every (IsDigit radix) rest
    → (c : ℕ) × (s : Text) × (print radix fuel n rest ≡ c ∷ s) × Every (IsDigit radix) (c ∷ s)
unfolding print
print-IsDigit radix zero n rest two more h = absurd (omega arith)
print-IsDigit radix (suc fuel) n rest two more h = elim (dec_lt n radix) [
  | yes below ↦ (digit n, rest, ground arith, (digit-IsDigit radix n below, h))
  | no above ↦
      let last = mod-lt n {m = radix} (omega arith) in
      let (c, s, e, h') =
        print-IsDigit radix fuel (n / radix) (digit (n % radix) ∷ rest) two
          (omega (arith, div-lt n radix two (omega arith)))
          (digit-IsDigit radix (n % radix) last, h) in
      (c, s, ground arith, h')
]

-- A text that starts with a digit has no sign.
from_str_radix-digit :
    (radix most c : ℕ) (s : Text)
    → radix ≤ 36
    → IsDigit radix c
    → from_str_radix radix most (c ∷ s) ≡ parse_digits radix most (c ∷ s) 0
unfolding from_str_radix
from_str_radix-digit radix most c s le (inl h) = ground arith
from_str_radix-digit radix most c s le (inr h) = ground arith

module _ (radix n : ℕ) (two : 2 ≤ radix) where
  pub printed-IsDigit :
      (c : ℕ) × (s : Text) × (printed radix n ≡ c ∷ s) × Every (IsDigit radix) (c ∷ s)
  printed-IsDigit = print-IsDigit radix (suc n) n [] two (omega arith) tt

  module _ (most : ℕ) (le : radix ≤ 36) where
    parse_digits-printed : parse_digits radix most (printed radix n) 0 ≡ checked most n
    parse_digits-printed =
        parse-print radix most (suc n) n [] two le (omega arith) ∙ (unfold parse_digits in refl)

    -- A printed number is read back where it is at most the largest value, and refused where not.
    pub from_str_radix-printed : from_str_radix radix most (printed radix n) ≡ checked most n
    from_str_radix-printed =
        let (c, s, e, (h, _)) = printed-IsDigit in
        ap (from_str_radix radix most) e
        ∙ from_str_radix-digit radix most c s le h
        ∙ ap (λ (t : Text). parse_digits radix most t 0) (sym e)
        ∙ parse_digits-printed

    parse_digits-zeros :
        (zeros : ℕ) (s : Text)
        → parse_digits radix most (replicate zeros b'0' ++ s) 0 ≡ parse_digits radix most s 0
    parse_digits-zeros zero s = refl
    parse_digits-zeros (suc zeros) s = ground (
      arith,
      parse_digit radix most 0 0 (replicate zeros b'0' ++ s) (omega arith) le,
      parse_digits-zeros zeros s,
    )

    -- Zeros in front change nothing.
    pub from_str_radix-padded :
        (pad : ℕ)
        → from_str_radix radix most (replicate pad b'0' ++ printed radix n) ≡ checked most n
    from_str_radix-padded zero = from_str_radix-printed
    from_str_radix-padded (suc pad) =
        from_str_radix-digit radix most b'0' (replicate pad b'0' ++ printed radix n) le
          (inl (omega arith, omega arith, omega arith))
        ∙ parse_digits-zeros (suc pad) (printed radix n)
        ∙ parse_digits-printed

pub decimal-IsDigit : (n : ℕ) → Every (IsDigit 10) (decimal n)
decimal-IsDigit n = let (c, s, e, h) = printed-IsDigit 10 n (omega arith) in rw e h

pub parse_u64-decimal : (n : ℕ) → n ≤ u64_max → parse_u64 (decimal n) ≡ some n
parse_u64-decimal n le =
    from_str_radix-printed 10 n (omega arith) u64_max (omega arith) ∙ ground arith
