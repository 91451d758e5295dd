-- ===== src/Common/Budget.antt =====
-- The steps that the threads of a system have left, counted thread by thread.
use Prim.Native.Nat.{ℕ, zero, suc, ◌+◌, ◌*◌, ◌<◌}
use mathlib.Core.Path.{◌≡◌}
use native.Mathlib.Omega.{arith}
use kernelkit.Common.Tests.{ltb, if◌then◌else◌}
use kernelkit.Common.Update.{update}

module _ {ℓ} {Pc : Type ℓ} (left : Pc → ℕ) where
  unfoldable pub budget : (threads : ℕ) → (ℕ → Pc) → ℕ
  budget zero pc = 0
  budget (suc last) pc = left (pc last) + budget last pc

  -- A thread that is none of those counted moves for nothing.
  spent :
      (threads : ℕ) (pc : ℕ → Pc) (mover : ℕ) (next : Pc)
      → (if ltb mover threads then left (pc mover) else 0) + budget threads (update pc mover next)
        ≡ (if ltb mover threads then left next else 0) + budget threads pc
  unfolding budget
  spent zero pc mover next = ground arith
  spent (suc last) pc mover next = ground (arith, spent last pc mover next)

  pub budget-falls :
      (threads : ℕ) (pc : ℕ → Pc) (mover : ℕ) (next : Pc)
      → mover < threads
      → left next < left (pc mover)
      → budget threads (update pc mover next) < budget threads pc
  budget-falls threads pc mover next counted less = grind (arith, spent threads pc mover next)

  pub budget-start : (threads : ℕ) (p : Pc) → budget threads (λ _. p) ≡ threads * left p
  unfolding budget
  budget-start zero p = omega arith
  budget-start (suc last) p = ground (arith, budget-start last p)
