-- ===== src/Machine/Inversion.antt =====
-- Inversion of a step that succeeded, for proofs in which the parts of a `do` block stay shut.
use kernelkit.Common.{◌≡◌, refl}
use kernelkit.Errors.{Result, ok, err, panicked}
use kernelkit.Machine.{State, M, continue, cleanup_on_failure}

module _ {A B : Type 0} where
  pub continue-ok :
      (p : Result A × State) (f : A → M B) {b : B}
      → (continue p f).0 ≡ ok b
      → (a : A) × (s : State) × (p ≡ (ok a, s)) × ((f a s).0 ≡ ok b)
  continue-ok (ok a, s) f h = (a, s, refl, h)
  continue-ok (err e, s) f h = cc
  continue-ok (panicked, s) f h = cc

module _ {A : Type 0} where
  pub cleanup_on_failure-ok :
      (cleanup : State → State) (p : Result A × State) {a : A} {s : State}
      → cleanup_on_failure cleanup p ≡ (ok a, s)
      → p ≡ (ok a, s)
  cleanup_on_failure-ok cleanup (ok a, s) h = h
  cleanup_on_failure-ok cleanup (err e, s) h = cc
  cleanup_on_failure-ok cleanup (panicked, s) h = cc
