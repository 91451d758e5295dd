-- ===== src/Hugepages/Contents.antt =====
-- src/hugepages.rs: the elements of an allocation against the values that `T::default()` returns.
use kernelkit.Common.{
  ℕ, zero, suc, ◌+◌, ◌<◌, ◌⊎◌, ◌≡◌, refl, ◌≢◌, ◌∙◌, List, [], ◌∷◌, Option, none, some, arith,
  length, Option-cases, inl, inr,
}
use kernelkit.Errors.{Error, ok, err, panicked}
use kernelkit.Defaults.{defaults, length-defaults}
use kernelkit.Lengths.{TypeInfo, checked_len}
use kernelkit.Machine.{Os, State}
use kernelkit.Hugepages.Allocation.{
  Slots, empty_slots, write, read, HugeAllocation, as_slice, InitGuard, drop_guard, init,
}
use kernelkit.Hugepages.Allocation

module _ {A : Type 0} where
  -- The memory behind the writes of `xs` from index `i` on.
  abbrev filled : Slots A → ℕ → List A → Slots A
  filled slots i [] = slots
  filled slots i (x ∷ xs) = filled (write i x slots) (suc i) xs

  filled_below : (slots : Slots A) (i j : ℕ) (xs : List A) → j < i → filled slots i xs j ≡ slots j
  filled_below slots i j [] h = refl
  filled_below slots i j (x ∷ xs) h =
      filled_below (write i x slots) (suc i) j xs (omega arith) ∙ ground arith

  read-filled :
      (slots : Slots A) (i : ℕ) (xs : List A) → read (filled slots i xs) i (length xs) ≡ some xs
  unfolding read
  read-filled slots i [] = refl
  read-filled slots i (x ∷ xs) = ground (
    arith,
    filled_below (write i x slots) (suc i) i xs (omega arith),
    read-filled (write i x slots) (suc i) xs,
  )

  -- How many calls return before one panics, if one does.
  abbrev values_before : (ℕ → Option A) → ℕ → ℕ → ℕ
  values_before default i zero = 0
  values_before default i (suc n) = elim (default i) [
    | none ↦ 0
    | some a ↦ suc (values_before default (suc i) n)
  ]

  module _ (os : Os) (default : ℕ → Option A) where
    init-ok :
        (i n : ℕ) (guard : InitGuard) (slots : Slots A) (s : State) {xs : List A}
        → defaults default i n ≡ ok xs
        → init os default i n guard slots s ≡ (ok (filled slots i xs), s)
    unfolding defaults init
    init-ok i zero guard slots s {xs = []} h = refl
    init-ok i zero guard slots s {xs = x ∷ xs} h = cc
    init-ok i (suc n) guard slots s {xs = []} h = ground arith
    init-ok i (suc n) guard slots s {xs = x ∷ xs} h =
        let guard' : InitGuard = record guard { initialized = guard.initialized + 1 } in
        ground (arith, init-ok (suc i) n guard' (write i x slots) s {xs = xs})

    init-panicked :
        (i n : ℕ) (guard : InitGuard) (slots : Slots A) (s : State)
        → defaults default i n ≡ panicked
        → init os default i n guard slots s ≡ (
          panicked,
          drop_guard os
              (record guard { initialized = guard.initialized + values_before default i n })
              s,
        )
    unfolding defaults init
    init-panicked i zero guard slots s h = cc
    init-panicked i (suc n) guard slots s h =
        let guard' : InitGuard = record guard { initialized = guard.initialized + 1 } in
        elim (Option-cases (default i)) [
          | inl e ↦ ground arith
          | inr (a, e) ↦ ground (arith, init-panicked (suc i) n guard' (write i a slots) s)
        ]

  defaults_cases :
      (default : ℕ → Option A) (i n : ℕ)
      → ((xs : List A) × (defaults default i n ≡ ok xs)) ⊎ (defaults default i n ≡ panicked)
  unfolding defaults
  defaults_cases default i zero = inl ([], refl)
  defaults_cases default i (suc n) = elim (Option-cases (default i)) [
    | inl e ↦ inr (ground arith)
    | inr (a, e) ↦ elim (defaults_cases default (suc i) n) [
      | inl (xs, e') ↦ inl (a ∷ xs, ground arith)
      | inr e' ↦ inr (ground arith)
    ]
  ]

  pub new-ne-panicked :
      (os : Os) (T : TypeInfo) (default : ℕ → Option A) (count : ℕ) (s : State) {xs : List A}
      → defaults default 0 count ≡ ok xs
      → (Allocation.new os T default count s).0 ≢ panicked
  unfolding Allocation.new checked_len
  new-ne-panicked os T default count s e h = grind (
    arith,
    λ (guard : InitGuard) (slots : Slots A) (s' : State).
        init-ok os default 0 count guard slots s' e,
  )

  pub defaults-ne-err :
      (default : ℕ → Option A) (i n : ℕ) (e : Error) → defaults default i n ≢ err e
  defaults-ne-err default i n e h = elim (defaults_cases default i n) [
    | inl (xs, e') ↦ cc
    | inr e' ↦ cc
  ]

  -- Whatever the system answers, an allocation that is returned holds `count` values, all of them
  -- initialised: those that `T::default()` returned, in order.
  pub new-contents :
      (os : Os) (T : TypeInfo) (default : ℕ → Option A) (count : ℕ) (s : State)
      {a : HugeAllocation A}
      → (Allocation.new os T default count s).0 ≡ ok (some a)
      → (xs : List A) × (defaults default 0 count ≡ ok xs)
        × (as_slice a ≡ some xs)
        × (a.count ≡ count)
  unfolding Allocation.new as_slice
  new-contents os T default count s {a} h = elim (defaults_cases default 0 count) [
    | inl (xs, e) ↦
        let is_read = read-filled empty_slots 0 xs in
        let counted = length-defaults default 0 count e in
        (
          xs,
          e,
          grind (arith, init-ok os default 0 count, is_read, counted),
          grind (arith, init-ok os default 0 count),
        )
    | inr e ↦ absurd (grind (arith, init-panicked os default 0 count))
  ]
