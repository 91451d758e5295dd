-- ===== src/Hugepages/Ownership.antt =====
-- src/hugepages.rs: what an allocation and a vector hold, and what a failure or a panic of
-- `T::default()` leaves.
use kernelkit.Common.{
  ℕ, zero, suc, ◌+◌, ◌≡◌, refl, ◌≢◌, List, [], ◌∷◌, Option, none, some, arith, Option-cases, inl,
  inr,
}
use kernelkit.Errors.{Result, ok, err, panicked}
use kernelkit.Lengths.{TypeInfo, checked_len}
use kernelkit.Machine.{Os, State}
use kernelkit.Machine.Held.{Resource, mapping, held, give_back, Balanced, give_back_first}
use kernelkit.Hugepages.Allocation.{Slots, InitGuard, init, HugeAllocation}
use kernelkit.Hugepages.Allocation
use kernelkit.Hugepages.Vector.{HugePageVec, standard, huge, try_new}
use kernelkit.Hugepages.Vector

module _ {A : Type 0} where
  abbrev its_mapping : Option (HugeAllocation A) → List Resource
  its_mapping none = []
  its_mapping (some a) = mapping a.ptr a.map_len ∷ []

  abbrev pub its_resources : HugePageVec A → List Resource
  its_resources (standard values) = []
  its_resources (huge a) = mapping a.ptr a.map_len ∷ []

  module _ (os : Os) where
    -- The loop keeps the mapping where it ends, and gives it back where it panics.
    abbrev guarded : InitGuard → Result (Slots A) → List Resource → List Resource
    guarded guard (ok slots) rs = rs
    guarded guard (err e) rs = rs
    guarded guard panicked rs = give_back (mapping guard.ptr guard.map_len) rs

    init-held :
        (default : ℕ → Option A) (i n : ℕ) (guard : InitGuard) (slots : Slots A) (s : State)
        → held (init os default i n guard slots s).1.calls
          ≡ guarded guard (init os default i n guard slots s).0 (held s.calls)
    unfolding init
    init-held default i zero guard slots s = refl
    init-held default i (suc n) guard slots s = elim (Option-cases (default i)) [
      | inl e ↦ ground arith
      | inr (a, e) ↦
          let guard' : InitGuard = record guard { initialized = guard.initialized + 1 } in
          ground (arith, init-held default (suc i) n guard' (Allocation.write i a slots) s)
    ]

    init-ne-err :
        (default : ℕ → Option A) (i n : ℕ) (guard : InitGuard) (slots : Slots A) (s : State) (e : _)
        → (init os default i n guard slots s).0 ≢ err e
    unfolding init
    init-ne-err default i zero guard slots s e h = cc
    init-ne-err default i (suc n) guard slots s e h = elim (Option-cases (default i)) [
      | inl e' ↦ ground arith
      | inr (a, e') ↦
          let guard' : InitGuard = record guard { initialized = guard.initialized + 1 } in
          ground (arith, init-ne-err default (suc i) n guard' (Allocation.write i a slots) s e)
    ]

    pub new-Balanced :
        (T : TypeInfo) (default : ℕ → Option A) (count : ℕ) (s : State)
        → Balanced its_mapping s (Allocation.new os T default count s)
    unfolding Allocation.new checked_len
    new-Balanced T default count s =
        grind (arith, init-held default 0 count, init-ne-err default 0 count, give_back_first)

    module _ (T : TypeInfo) (default : ℕ → Option A) (count : ℕ) (s : State) where
      try_new-Balanced : Balanced its_resources s (try_new os T default count s)
      unfolding try_new
      try_new-Balanced = grind (arith, new-Balanced T default count s)

      new_fallible-Balanced : Balanced its_resources s (Vector.new_fallible os T default count s)
      unfolding Vector.new_fallible
      new_fallible-Balanced = grind (arith, new-Balanced T default count s)

      vec_new-Balanced : Balanced its_resources s (Vector.new os T default count s)
      unfolding Vector.new
      vec_new-Balanced = grind (arith, new-Balanced T default count s)

      -- Each of the three constructors acquires exactly what its vector holds, and nothing where it
      -- fails or panics.
      pub constructors-Balanced :
          Balanced its_resources s (try_new os T default count s)
          × Balanced its_resources s (Vector.new_fallible os T default count s)
          × Balanced its_resources s (Vector.new os T default count s)
      constructors-Balanced = (try_new-Balanced, new_fallible-Balanced, vec_new-Balanced)

      -- A vector that was made and dropped leaves nothing mapped.
      pub drop-try_new :
          (v : HugePageVec A) (s' : State)
          → try_new os T default count s ≡ (ok v, s')
          → held (Vector.drop os v s').calls ≡ held s.calls
      unfolding Vector.drop
      drop-try_new (standard values) s' h = ground (arith, try_new-Balanced)
      drop-try_new (huge a) s' h =
          ground (arith, try_new-Balanced, give_back_first (mapping a.ptr a.map_len) (held s.calls))
