-- ===== src/Hugepages/Constructors.antt =====
-- src/hugepages.rs: the three constructors of `HugePageVec` together.
use kernelkit.Common.{ℕ, ◌≡◌, List, Option}
use kernelkit.Errors.{Result, ok, err}
use kernelkit.Lengths.{TypeInfo}
use kernelkit.Defaults.{defaults}
use kernelkit.Machine.{Os, State}
use kernelkit.Hugepages.Vector
use kernelkit.Hugepages.Vector.{
  HugePageVec, standard, huge, len, is_empty, as_slice, as_mut_slice, new_fallible, try_new,
}
use kernelkit.Hugepages.Outcomes.{
  HoldsDefaults, new-HoldsDefaults, new_fallible-HoldsDefaults, try_new-HoldsDefaults,
}
use kernelkit.Errors.{Error, allocation_overflow, allocation_failed}
use kernelkit.Hugepages.Outcomes.{new-ne-err, new_fallible-err, try_new-err}
use kernelkit.Hugepages.Refinement.{Refines, store_all, list_all, store_all-Refines}

-- The three constructors.
pub data Constructor : Type 0 where
  by_new by_new_fallible by_try_new : Constructor

module _ {A : Type 0} (os : Os) (T : TypeInfo) (default : ℕ → Option A) (count : ℕ)
    (s : State) where
  abbrev pub construct : Constructor → Result (HugePageVec A) × State
  construct by_new = Vector.new os T default count s
  construct by_new_fallible = new_fallible os T default count s
  construct by_try_new = try_new os T default count s

  -- A vector that any of the three constructors returns, on huge pages or not, shows `count` default
  -- values.
  pub construct-HoldsDefaults :
      (k : Constructor) (v : HugePageVec A)
      → (construct k).0 ≡ ok v
      → HoldsDefaults os T default count s v
  construct-HoldsDefaults by_new v h = new-HoldsDefaults os T default count s v h
  construct-HoldsDefaults by_new_fallible v h = new_fallible-HoldsDefaults os T default count s v h
  construct-HoldsDefaults by_try_new v h = try_new-HoldsDefaults os T default count s v h

  -- A vector that any of the three constructors returns, on huge pages or not, goes through every run
  -- of stores as the list of `count` default values does.
  pub construct-Refines :
      (k : Constructor) (v : HugePageVec A) (writes : List (ℕ × A))
      → (construct k).0 ≡ ok v
      → (xs : List A) × (defaults default 0 count ≡ ok xs)
        × Refines (store_all writes v) (list_all writes xs)
  construct-Refines k v writes h =
      let (xs, made, shown, _) = construct-HoldsDefaults k v h in
      (xs, made, store_all-Refines writes v xs shown)

  -- The error that a constructor is allowed.
  abbrev pub Names : Constructor → Error → Type 0
  Names by_new e = ⊥
  Names by_new_fallible e = e ≡ allocation_overflow count T.type_name
  Names by_try_new e = e ≡ allocation_failed count T.type_name

  -- `new` gives no error; the one error of `new_fallible` says that the length overflowed, whatever the
  -- reason, and the one error of `try_new` that the allocation failed.
  pub construct-err : (k : Constructor) (e : Error) → (construct k).0 ≡ err e → Names k e
  construct-err by_new e h = new-ne-err os T default count s e h
  construct-err by_new_fallible e h = new_fallible-err os T default count s e h
  construct-err by_try_new e h = try_new-err os T default count s e h
