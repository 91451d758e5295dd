-- ===== src/Hugepages/Refinement.antt =====
-- src/hugepages.rs: a vector, on huge pages or not, against the list that it shows.
use kernelkit.Common.{
  ℕ, zero, suc, ◌-◌, ◌<◌, ◌≤◌, ◌≡◌, refl, sym, ap, ◌∙◌, List, [], ◌∷◌, Option, none, some, inl, inr,
  arith, length, set, ltb, if◌then◌else◌, ◌==◌, Option-cases, Bool-cases, ℕ_discrete,
}
use kernelkit.Errors.{Result, ok, err, panicked, ◌>>=◌}
use kernelkit.Hugepages.Allocation.{Slots, write, read}
use kernelkit.Hugepages.Vector.{HugePageVec, standard, huge, len, is_empty, as_slice, as_mut_slice}

module _ {A : Type 0} where
  -- Reads behind a write do not see it.
  read-write_before :
      (slots : Slots A) (i j n : ℕ) (a : A) → i < j → read (write i a slots) j n ≡ read slots j n
  unfolding read
  read-write_before slots i j zero a h = refl
  read-write_before slots i j (suc n) a h =
      ground (arith, read-write_before slots i (suc j) n a (omega arith))

  read-some :
      (slots : Slots A) (j n : ℕ) (xs : List A)
      → read slots j (suc n) ≡ some xs
      → (x : A) × (ys : List A) × (slots j ≡ some x)
        × (read slots (suc j) n ≡ some ys)
        × (xs ≡ x ∷ ys)
  unfolding read
  read-some slots j n xs h = elim (Option-cases (slots j)) [
    | inl e ↦ absurd (ground arith)
    | inr (x, e) ↦ elim (Option-cases (read slots (suc j) n)) [
      | inl e' ↦ absurd (ground arith)
      | inr (ys, e') ↦ (x, ys, e, e', ground arith)
    ]
  ]

  read-write :
      (slots : Slots A) (i j n : ℕ) (a : A) (xs : List A)
      → j ≤ i
      → read slots j n ≡ some xs
      → read (write i a slots) j n ≡ some (set xs (i - j) a)
  unfolding read
  read-write slots i j zero a xs le h = ground arith
  read-write slots i j (suc n) a xs le h =
      let (x, ys, first, rest, whole) = read-some slots j n xs h in
      elim (ℕ_discrete i j) [
        | yes e ↦
            let here : i - j ≡ 0 = omega (arith, e) in
            rw (whole, here) (ground (arith, read-write_before slots i (suc j) n a))
        | no ne ↦
            let there : i - j ≡ suc (i - suc j) = omega (arith, ne) in
            rw (whole, there) (ground (arith, read-write slots i (suc j) n a ys))
      ]

  length-read : (slots : Slots A) (j n : ℕ) (xs : List A) → read slots j n ≡ some xs → length xs ≡ n
  unfolding read
  length-read slots j zero xs h = ground arith
  length-read slots j (suc n) xs h =
      let (x, ys, _, rest, whole) = read-some slots j n xs h in
      ap length whole ∙ ap suc (length-read slots (suc j) n ys rest)

  -- What a client sees of a vector: the values of its slice, and their number.
  abbrev pub Shows : HugePageVec A → List A → Type 0
  Shows v xs = (as_slice v ≡ some xs) × (len v ≡ length xs) × (is_empty v ≡ (length xs == 0))

  as_slice-Shows : (v : HugePageVec A) (xs : List A) → as_slice v ≡ some xs → Shows v xs
  unfolding as_slice len is_empty
  as_slice-Shows (standard values) xs h = (h, ground arith, ground arith)
  as_slice-Shows (huge a) xs h =
      let counted = length-read a.slots 0 a.count xs h in (h, sym counted, ground arith)

  -- The list's own store, which has no result past the end.
  abbrev pub store : ℕ → A → List A → Option (List A)
  store i a xs = if ltb i (length xs) then some (set xs i a) else none

  -- A vector that shows the list, or a panic where there is none.
  abbrev pub Refines : Result (HugePageVec A) → Option (List A) → Type 0
  Refines (ok v) (some xs) = Shows v xs
  Refines panicked none = Unit {0}
  Refines r xs = ⊥

  shown_by :
      (r : Result (HugePageVec A)) (o : Option (List A)) (v : HugePageVec A) (xs : List A)
      → r ≡ ok v
      → o ≡ some xs
      → as_slice v ≡ some xs
      → Refines r o
  shown_by r o v xs e e' h = rw (e, e') (as_slice-Shows v xs h)

  refused_by :
      (r : Result (HugePageVec A)) (o : Option (List A)) → r ≡ panicked → o ≡ none → Refines r o
  refused_by r o e e' = rw (e, e') tt

  as_mut_slice-Refines :
      (v : HugePageVec A) (xs : List A) (i : ℕ) (a : A)
      → as_slice v ≡ some xs
      → Refines (as_mut_slice v i a) (store i a xs)
  unfolding as_mut_slice as_slice
  as_mut_slice-Refines (standard values) xs i a h =
      let same : values ≡ xs = ground arith in
      rw same (elim (Bool-cases (ltb i (length xs))) [
        | inl e ↦
            shown_by _ _ (standard (set xs i a)) (set xs i a) (ground arith) (ground arith) refl
        | inr e ↦ rw e tt
      ])
  as_mut_slice-Refines (huge allocation) xs i a h =
      let counted = length-read allocation.slots 0 allocation.count xs h in
      let written = read-write allocation.slots i 0 allocation.count a xs (omega arith) h in
      elim (Bool-cases (ltb i (length xs))) [
        | inl e ↦
            shown_by _ _ (huge (record allocation { slots = write i a allocation.slots }))
              (set xs i a) (ground arith) (ground arith) (written ∙ ground arith)
        | inr e ↦ refused_by _ _ (ground arith) (ground arith)
      ]

  -- A client's stores one behind the other, and those on the list.
  abbrev pub store_all : List (ℕ × A) → HugePageVec A → Result (HugePageVec A)
  store_all [] v = ok v
  store_all ((i, a) ∷ writes) v = as_mut_slice v i a >>= store_all writes

  abbrev pub list_all : List (ℕ × A) → List A → Option (List A)
  list_all [] xs = some xs
  list_all ((i, a) ∷ writes) xs = elim (store i a xs) [ none ↦ none | some ys ↦ list_all writes ys ]

  after_store :
      (writes : List (ℕ × A)) (r : Result (HugePageVec A)) (o : Option (List A))
      → ((v : HugePageVec A) (xs : List A)
          → as_slice v ≡ some xs
          → Refines (store_all writes v) (list_all writes xs))
      → Refines r o
      → Refines (r >>= store_all writes) (elim o [ none ↦ none | some ys ↦ list_all writes ys ])
  after_store writes (ok v) (some xs) k h = k v xs h.0
  after_store writes (ok v) none k h = absurd h
  after_store writes (err e) o k h = absurd h
  after_store writes panicked (some xs) k h = absurd h
  after_store writes panicked none k h = tt

  -- Any run of stores through `as_mut_slice` does to the vector what it does to the list which the
  -- vector shows: it panics exactly where a store is past the end of the list, and otherwise the
  -- slice, the length and the test for emptiness are those of the list behind the stores.
  pub store_all-Refines :
      (writes : List (ℕ × A)) (v : HugePageVec A) (xs : List A)
      → as_slice v ≡ some xs
      → Refines (store_all writes v) (list_all writes xs)
  store_all-Refines [] v xs h = as_slice-Shows v xs h
  store_all-Refines ((i, a) ∷ writes) v xs h =
      after_store writes (as_mut_slice v i a) (store i a xs) (store_all-Refines writes)
        (as_mut_slice-Refines v xs i a h)
