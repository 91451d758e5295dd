-- ===== src/Hugepages/Outcomes.antt =====
-- src/hugepages.rs: what the three constructors of `HugePageVec` return, on huge pages and on the
-- fallback alike.
use kernelkit.Common.{ℕ, ◌≡◌, refl, ◌≢◌, List, some, Option, arith}
use kernelkit.Errors.{Error, ok, err, panicked, allocation_failed, allocation_overflow}
use kernelkit.Defaults.{defaults, length-defaults}
use kernelkit.Lengths.{TypeInfo}
use kernelkit.Machine.{Os, State}
use kernelkit.Hugepages.Allocation
use kernelkit.Hugepages.Contents.{new-contents, new-ne-panicked, defaults-ne-err}
use kernelkit.Hugepages.Vector.{HugePageVec, standard, huge, len, as_slice, new_fallible, try_new}
use kernelkit.Hugepages.Vector

module _ {A : Type 0} (os : Os) (T : TypeInfo) (default : ℕ → Option A) (count : ℕ)
    (s : State) where
  -- The vector shows the values of `count` calls of `T::default()`, and has their number.
  abbrev pub HoldsDefaults : HugePageVec A → Type 0
  HoldsDefaults v =
      (xs : List A) × (defaults default 0 count ≡ ok xs) × (as_slice v ≡ some xs) × (len v ≡ count)

  huge-HoldsDefaults :
      {a : Allocation.HugeAllocation A}
      → (Allocation.new os T default count s).0 ≡ ok (some a)
      → HoldsDefaults (huge a)
  unfolding as_slice len
  huge-HoldsDefaults h = new-contents os T default count s h

  standard-HoldsDefaults :
      {xs : List A} → defaults default 0 count ≡ ok xs → HoldsDefaults (standard xs)
  unfolding as_slice len
  standard-HoldsDefaults {xs} h = (xs, h, refl, length-defaults default 0 count h)

  -- A vector that `try_new` returns, on huge pages or not, shows `count` default values.
  pub try_new-HoldsDefaults :
      (v : HugePageVec A) → (try_new os T default count s).0 ≡ ok v → HoldsDefaults v
  unfolding try_new
  try_new-HoldsDefaults (huge a) h = huge-HoldsDefaults (ground arith)
  try_new-HoldsDefaults (standard xs) h = standard-HoldsDefaults (ground arith)

  -- A vector that `new_fallible` returns, on huge pages or not, shows `count` default values.
  pub new_fallible-HoldsDefaults :
      (v : HugePageVec A) → (new_fallible os T default count s).0 ≡ ok v → HoldsDefaults v
  unfolding new_fallible
  new_fallible-HoldsDefaults (huge a) h = huge-HoldsDefaults (ground arith)
  new_fallible-HoldsDefaults (standard xs) h = standard-HoldsDefaults (ground arith)

  -- A vector that `new` returns, on huge pages or not, shows `count` default values.
  pub new-HoldsDefaults :
      (v : HugePageVec A) → (Vector.new os T default count s).0 ≡ ok v → HoldsDefaults v
  unfolding Vector.new
  new-HoldsDefaults (huge a) h = huge-HoldsDefaults (ground arith)
  new-HoldsDefaults (standard xs) h = standard-HoldsDefaults (ground arith)

  -- The one error of `try_new` says that the allocation failed.
  pub try_new-err :
      (e : Error)
      → (try_new os T default count s).0 ≡ err e
      → e ≡ allocation_failed count T.type_name
  unfolding try_new
  try_new-err e h = grind (arith, defaults-ne-err default 0 count)

  -- The one error of `new_fallible` says that the length overflowed, whatever the reason.
  pub new_fallible-err :
      (e : Error)
      → (new_fallible os T default count s).0 ≡ err e
      → e ≡ allocation_overflow count T.type_name
  unfolding new_fallible
  new_fallible-err e h = grind (arith, defaults-ne-err default 0 count)

  -- `new` returns no error: it gives a vector or panics.
  pub new-ne-err : (e : Error) → (Vector.new os T default count s).0 ≢ err e
  unfolding Vector.new
  new-ne-err e h = grind (arith, defaults-ne-err default 0 count)

  -- `try_new` panics only where `T::default()` does.
  pub try_new-ne-panicked :
      {xs : List A} → defaults default 0 count ≡ ok xs → (try_new os T default count s).0 ≢ panicked
  unfolding try_new
  try_new-ne-panicked h e = ground (arith, new-ne-panicked os T default count s h)
