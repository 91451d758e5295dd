-- ===== src/Portable/Stores.antt =====
-- src/hugepages.rs: the vectors of Linux and those of other systems, as a client sees them.
use kernelkit.Common.{
  ℕ, ◌≡◌, refl, List, [], ◌∷◌, Option, none, some, arith, length, set, ltb, Bool-cases, inl, inr,
}
use kernelkit.Errors.{Result, ok, err, panicked, ◌>>=◌}
use kernelkit.Lengths.{TypeInfo}
use kernelkit.Machine.{Os, State}
use kernelkit.Hugepages.Vector as Linux
use kernelkit.Hugepages.Constructors as Constructors
use kernelkit.Hugepages.Constructors.{Constructor, construct}
use kernelkit.Hugepages.Refinement.{Refines, store_all, list_all}
use kernelkit.Portable.Hugepages.{
  HugePageVec, standard, as_slice, as_mut_slice, construct_portable, construct_portable-defaults,
}

module _ {A : Type 0} where
  abbrev pub run_stores : List (ℕ × A) → HugePageVec A → Result (HugePageVec A)
  run_stores [] w = ok w
  run_stores ((i, a) ∷ writes) w = as_mut_slice w i a >>= run_stores writes

  -- What a run of stores shows: a list, or none where a store panicked.
  abbrev pub shows : Result (HugePageVec A) → Option (List A)
  shows (ok w) = some (as_slice w)
  shows (err e) = none
  shows panicked = none

  shows-run_stores :
      (writes : List (ℕ × A)) (w : HugePageVec A)
      → shows (run_stores writes w) ≡ list_all writes (as_slice w)
  unfolding as_mut_slice as_slice
  shows-run_stores [] (standard values) = refl
  shows-run_stores ((i, a) ∷ writes) (standard values) = elim (Bool-cases (ltb i (length values))) [
    | inl e ↦ ground (arith, shows-run_stores writes (standard (set values i a)))
    | inr e ↦ ground arith
  ]

-- A vector made on Linux, on huge pages or not, and a vector made where the system is not Linux, by any
-- two of the constructors, of the same length and the same defaults, go through every run of stores
-- alike: both show the same list behind it, or a store panics in both.
pub construct-portable :
    {A : Type 0} (linux os : Os) (T : TypeInfo) (default : ℕ → Option A) (count : ℕ) (s t : State)
    (k l : Constructor) (v : Linux.HugePageVec A) (w : HugePageVec A) (writes : List (ℕ × A))
    → (construct linux T default count s k).0 ≡ ok v
    → (construct_portable os T default count l t).0 ≡ ok w
    → Refines (store_all writes v) (shows (run_stores writes w))
construct-portable linux os T default count s t k l v w writes h h' =
    let (xs, made, refines) = Constructors.construct-Refines linux T default count s k v writes h in
    let same : xs ≡ as_slice w =
      ground (arith, construct_portable-defaults os T default count l t w h') in
    rw (shows-run_stores writes w) (rw (← same) refines)
