-- ===== src/Runs/Elsewhere.antt =====
-- Where the system is not Linux, at concrete systems.
use kernelkit.Common.{◌↔◌, ℕ, [], ◌∷◌, Option, some, ◌≡◌, refl}
use kernelkit.FileIdentity as Unix
use kernelkit.Portable.FileIdentity.{
  validate_file_identity, forget, SameInode, validate_file_identity_iff,
}
use kernelkit.Errors.{ok}
use kernelkit.Lengths.{TypeInfo, usize_max}
use kernelkit.Defaults.{defaults}
use kernelkit.Hugepages.Vector as Linux
use kernelkit.Hugepages.Refinement.{Refines, store_all}
use kernelkit.Portable.Hugepages as Hugepages
use kernelkit.Portable.Stores.{shows, run_stores, construct-portable}
use kernelkit.Hugepages.Constructors.{by_new, by_try_new, construct}
use kernelkit.Runs.Systems.{willing, plain, start}

-- What was seen of the file at first.
abbrev expected : Unix.FileIdentity
expected = record { len = 5; dev = 1; ino = 2 }

validate_file_identity_iff_example :
    ((Unix.validate_file_identity willing 3 expected 5 "changed" start).0 ≡ ok tt) ↔ (
      ((validate_file_identity willing 3 (forget expected) 5 "changed" start).0 ≡ ok tt)
      × SameInode willing 3 expected 5 "changed" start)
validate_file_identity_iff_example = validate_file_identity_iff willing 3 expected 5 "changed" start

abbrev bytes : TypeInfo
bytes = record { size = 1; align = 1; type_name = "u8" }

abbrev sevens : ℕ → Option ℕ
sevens index = some 7

abbrev on_linux : Linux.HugePageVec ℕ
on_linux = Linux.standard (7 ∷ 7 ∷ [])

abbrev elsewhere : Hugepages.HugePageVec ℕ
elsewhere = Hugepages.standard (7 ∷ 7 ∷ [])

made_on_linux : (construct plain bytes sevens 2 start by_new).0 ≡ ok on_linux
unfolding Linux.new defaults kernelkit.Hugepages.Allocation.new
    kernelkit.Hugepages.Allocation.align_up kernelkit.Lengths.checked_len
made_on_linux = refl

made_elsewhere :
    (Hugepages.construct_portable willing bytes sevens 2 by_try_new start).0 ≡ ok elsewhere
unfolding Hugepages.try_new defaults
made_elsewhere = refl

construct-portable_example :
    Refines (store_all ((1, 9) ∷ []) on_linux) (shows (run_stores ((1, 9) ∷ []) elsewhere))
construct-portable_example =
    construct-portable plain willing bytes sevens 2 start start by_new by_try_new on_linux elsewhere
      ((1, 9) ∷ []) made_on_linux made_elsewhere
