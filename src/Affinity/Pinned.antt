-- ===== src/Affinity/Pinned.antt =====
-- src/affinity.rs: the core that `pin_to_core` names to the system.
use kernelkit.Common.{
  ℕ, ◌/◌, ◌%◌, ◌^◌, ◌<◌, ◌≡◌, ltb, ◌↔◌, pos, arith, get_or-replicate, replicate, if◌then◌else◌,
  get_or, IsIn, one_bit,
}
use kernelkit.Errors.{ok}
use kernelkit.Machine.{Event, Os, State, note}
use Prim.Native.Nat.{bit_or, bit_or-bitwise}
use kernelkit.Affinity.Pinning.{core_mask, cpu_set_words, max_core, pin_to_core}

bit_or-get_or-replicate : (n i m : ℕ) → bit_or (get_or (replicate n 0) i 0) m ≡ m
bit_or-get_or-replicate n i m = rw (get_or-replicate n i 0) (bit_or-bitwise 0 m)

core_mask-IsIn :
    (core_id core : ℕ) → IsIn (core_mask core_id) core ↔ ((core ≡ core_id) × (core_id < max_core))
unfolding core_mask
core_mask-IsIn core_id core =
    rw (bit_or-get_or-replicate cpu_set_words (core_id / 64) (2 ^ (core_id % 64)))
      (grind (arith, one_bit cpu_set_words core_id core))

-- Pinning succeeds exactly if the core is one that a mask has a bit for and the call answers 0. A core
-- the mask has no bit for makes no call, any other makes the one call; its mask has no core in it but
-- that one.
pub pin_to_core_lem :
    (os : Os) (core_id core : ℕ) (s : State)
    → (((pin_to_core os core_id s).0 ≡ ok tt)
        ↔ ((core_id < max_core) × (os.setaffinity_answer s.calls (core_mask core_id) ≡ pos 0)))
      × ((pin_to_core os core_id s).1 ≡ (
          if ltb core_id max_core then note (Event.sched_setaffinity (core_mask core_id)) s else s))
      × (IsIn (core_mask core_id) core ↔ ((core ≡ core_id) × (core_id < max_core)))
unfolding pin_to_core
pin_to_core_lem os core_id core s = (grind arith, grind arith, core_mask-IsIn core_id core)
