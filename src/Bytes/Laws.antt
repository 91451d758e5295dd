-- ===== src/Bytes/Laws.antt =====
-- Laws of the byte primitives: splitting against concatenation, equality of slices, and the two
-- conversions between a word and its bytes.
use kernelkit.Common.{
  ℕ, zero, suc, ◌+◌, ◌*◌, ◌/◌, ◌^◌, ◌<◌, ◌≤◌, ◌≡◌, refl, ap, true, List, [], ◌∷◌, ◌++◌, arith,
  length, take, drop, take-append-drop, length-append, length-take, length-drop, All,
}
use native.Mathlib.Nat.{pow-suc}
use native.Mathlib.Decide.{dec_lt}
use kernelkit.Errors.{ok}
use kernelkit.Bytes.{
  Bytes, IsByte, split_at, bytes_eq, le_bytes, to_le_bytes, from_le_bytes, to_array_8,
}

module _ {ℓ} {A : Type ℓ} where
  pub take-append : (xs ys : List A) → take (length xs) (xs ++ ys) ≡ xs
  take-append [] ys = refl
  take-append (x ∷ xs) ys = ap (λ zs. x ∷ zs) (take-append xs ys)

  pub drop-append : (xs ys : List A) → drop (length xs) (xs ++ ys) ≡ ys
  drop-append [] ys = refl
  drop-append (x ∷ xs) ys = drop-append xs ys

  pub split_at-append : (xs ys : List A) → split_at (length xs) (xs ++ ys) ≡ ok (xs, ys)
  unfolding split_at
  split_at-append xs ys =
      rw (take-append xs ys, drop-append xs ys) (ground (arith, length-append xs ys))

  pub split_at-append_of_length :
      (n : ℕ) (xs ys : List A) → length xs ≡ n → split_at n (xs ++ ys) ≡ ok (xs, ys)
  split_at-append_of_length n xs ys e = rw e at (split_at-append xs ys)

  -- A successful split puts the input together again, its first part of the length asked for.
  pub split_at-eq-ok :
      (n : ℕ) (xs : List A) {ys zs : List A}
      → split_at n xs ≡ ok (ys, zs)
      → (xs ≡ ys ++ zs) × (length ys ≡ n)
  unfolding split_at
  split_at-eq-ok n xs h = ground (arith, take-append-drop n xs, length-take n xs)

-- How `split_at n xs` ends: `xs` is too short, or it falls into two parts.
pub data Cut {ℓ} {A : Type ℓ} (n : ℕ) (xs : List A) : Type ℓ where
  short : length xs < n → Cut n xs
  parts :
      (front back : List A)
      → split_at n xs ≡ ok (front, back)
      → xs ≡ front ++ back
      → length front ≡ n
      → length xs ≡ n + length back
      → Cut n xs

module _ {ℓ} {A : Type ℓ} where
  split_parts : (n : ℕ) (xs : List A) → n ≤ length xs → split_at n xs ≡ ok (take n xs, drop n xs)
  unfolding split_at
  split_parts n xs h = ground arith

  pub split_at_cases : (n : ℕ) (xs : List A) → Cut n xs
  split_at_cases n xs = elim (dec_lt (length xs) n) [
    | yes h ↦ short h
    | no h ↦
        let e = split_parts n xs (omega arith) in
        let both = split_at-eq-ok n xs e in
        parts (take n xs) (drop n xs) e both.0 both.1 (omega (arith, length-drop n xs))
  ]

pub bytes_eq_refl : (xs : Bytes) → bytes_eq xs xs ≡ true
unfolding bytes_eq
bytes_eq_refl [] = refl
bytes_eq_refl (x ∷ xs) = ground (arith, bytes_eq_refl xs)

pub eq_of_bytes_eq : (xs ys : Bytes) → bytes_eq xs ys ≡ true → xs ≡ ys
unfolding bytes_eq
eq_of_bytes_eq [] [] h = refl
eq_of_bytes_eq [] (y ∷ ys) h = cc
eq_of_bytes_eq (x ∷ xs) [] h = cc
eq_of_bytes_eq (x ∷ xs) (y ∷ ys) h = ground (arith, eq_of_bytes_eq xs ys)

pub length-le_bytes : (k v : ℕ) → length (le_bytes k v) ≡ k
unfolding le_bytes
length-le_bytes zero v = refl
length-le_bytes (suc k) v = ap suc (length-le_bytes k (v / 256))

pub le_bytes-IsByte : (k v : ℕ) → All IsByte (le_bytes k v)
unfolding le_bytes
le_bytes-IsByte zero v = tt
le_bytes-IsByte (suc k) v = (omega arith, le_bytes-IsByte k (v / 256))

pub from_le_bytes-le_bytes : (k v : ℕ) → v < 256 ^ k → from_le_bytes (le_bytes k v) ≡ v
unfolding le_bytes from_le_bytes
from_le_bytes-le_bytes zero v h = omega arith
from_le_bytes-le_bytes (suc k) v h = omega (arith, from_le_bytes-le_bytes k (v / 256) (omega arith))

pub le_bytes-from_le_bytes :
    (bs : Bytes) → All IsByte bs → le_bytes (length bs) (from_le_bytes bs) ≡ bs
unfolding le_bytes from_le_bytes
le_bytes-from_le_bytes [] h = refl
le_bytes-from_le_bytes (b ∷ bs) (hb, hbs) = ground (
  arith,
  le_bytes-from_le_bytes bs hbs,
  ap (le_bytes (length bs)) (quotient b (from_le_bytes bs) hb),
)
  where
    quotient : (b n : ℕ) → b < 256 → (b + 256 * n) / 256 ≡ n
    quotient b n h = omega arith

pub from_le_bytes-lt : (bs : Bytes) → All IsByte bs → from_le_bytes bs < 256 ^ length bs
unfolding from_le_bytes
from_le_bytes-lt [] h = omega arith
from_le_bytes-lt (b ∷ bs) (hb, hbs) =
    omega (arith, pow-suc 256 (length bs), from_le_bytes-lt bs hbs)

pub to_array_8_of_length : (bs : Bytes) → length bs ≡ 8 → to_array_8 bs ≡ bs
unfolding to_array_8
to_array_8_of_length bs h = ground arith

-- Eight bytes and the word that they spell determine one another.
pub word_of_array_8 :
    (bs : Bytes)
    → All IsByte bs
    → length bs ≡ 8
    → (to_le_bytes (from_le_bytes (to_array_8 bs)) ≡ bs) × (from_le_bytes (to_array_8 bs) < 2 ^ 64)
word_of_array_8 bs hb e =
    rw (to_array_8_of_length bs e)
      (rw e at (le_bytes-from_le_bytes bs hb), rw e at (from_le_bytes-lt bs hb))
