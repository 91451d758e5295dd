-- ===== src/Defaults.antt =====
-- `Vec::resize_with(count, T::default)` and `repeat_with(T::default).take(count).collect()`, which
-- src/numa.rs and src/hugepages.rs fill their vectors by.
use kernelkit.Common.{ℕ, zero, suc, List, [], ◌∷◌, Option, none, some, ◌≡◌, arith, length}
use kernelkit.Errors.{Result, ok, err, panicked}

-- One value in front of those of the later calls.
abbrev pub cons_value {ℓ} : {A : Type ℓ} → Option A → Result (List A) → Result (List A)
cons_value none r = panicked
cons_value (some a) (ok xs) = ok (a ∷ xs)
cons_value (some a) (err e) = err e
cons_value (some a) panicked = panicked

-- The values of `n` calls, from call number `i` on. `none` is a call that panics.
unfoldable pub defaults {ℓ} : {A : Type ℓ} → (ℕ → Option A) → ℕ → ℕ → Result (List A)
defaults default i zero = ok []
defaults default i (suc n) = cons_value (default i) (defaults default (suc i) n)

pub length-defaults {ℓ} :
    {A : Type ℓ} (default : ℕ → Option A) (i n : ℕ) {xs : List A}
    → defaults default i n ≡ ok xs
    → length xs ≡ n
unfolding defaults
length-defaults default i zero h = ground arith
length-defaults default i (suc n) {xs = []} h = ground arith
length-defaults default i (suc n) {xs = x ∷ xs} h =
    ground (arith, length-defaults default (suc i) n {xs = xs})
