-- ===== src/Perf/Ownership.antt =====
-- src/perf.rs: the descriptor of a counter.
use kernelkit.Common.{ℕ, ◌-◌, ◌^◌, ◌≤◌, pos, List, [], ◌∷◌, ◌≡◌, ◌↔◌, refl, ◌∙◌, arith}
use kernelkit.Errors.{ok}
use kernelkit.Machine.{Calls, Os, State}
use kernelkit.Machine.Held.{Resource, descriptor, held, Balanced, give_back_first}
use kernelkit.Perf as Perf
use kernelkit.Perf.{
  HwCounter, PerfCounter, counter_type, open_counter, read_value, reset, config, attr_size,
}

abbrev its_descriptor : PerfCounter → List Resource
its_descriptor c = descriptor c.fd ∷ []

-- What is done with a counter that is open.
pub data Use : Type 0 where
  reading : Use
  resetting : Use

module _ (os : Os) where
  -- A counter that opens is of the type that was asked for.
  pub counter_type-open_counter :
      (counter : HwCounter) (s : State) (c : PerfCounter)
      → (open_counter os counter s).0 ≡ ok c
      → counter_type c ≡ counter
  unfolding open_counter counter_type
  counter_type-open_counter counter s c h = grind arith

  -- Opening a counter leaves its descriptor open where it succeeds and nothing where it fails, for a
  -- system whose descriptors are C ints.
  pub open_counter-Balanced :
      ((calls : Calls) (kind config size fd : ℕ)
        → os.perf_open_answer calls kind config size ≡ pos fd
        → fd ≤ 2 ^ 31 - 1)
      → (counter : HwCounter) (s : State) → Balanced its_descriptor s (open_counter os counter s)
  unfolding open_counter
  open_counter-Balanced small counter s = grind (arith, small s.calls 0 (config counter) attr_size)

  read_value-held : (c : PerfCounter) (s : State) → held (read_value os c s).1.calls ≡ held s.calls
  unfolding read_value
  read_value-held c s = grind arith

  reset-held : (c : PerfCounter) (s : State) → held (reset os c s).1.calls ≡ held s.calls
  unfolding reset
  reset-held c s = grind arith

  opened-held :
      (counter : HwCounter) (s : State) (c : PerfCounter)
      → (open_counter os counter s).0 ≡ ok c
      → held (open_counter os counter s).1.calls ≡ descriptor c.fd ∷ held s.calls
  unfolding open_counter
  opened-held counter s c h = grind arith

  abbrev pub use_all : PerfCounter → List Use → State → State
  use_all c [] s = s
  use_all c (reading ∷ uses) s = use_all c uses (read_value os c s).1
  use_all c (resetting ∷ uses) s = use_all c uses (reset os c s).1

  use_all-held :
      (c : PerfCounter) (uses : List Use) (s : State) → held (use_all c uses s).calls ≡ held s.calls
  use_all-held c [] s = refl
  use_all-held c (reading ∷ uses) s =
      use_all-held c uses (read_value os c s).1 ∙ read_value-held c s
  use_all-held c (resetting ∷ uses) s = use_all-held c uses (reset os c s).1 ∙ reset-held c s

  -- However often a counter that was opened is read and reset, and whether that fails or not, dropping
  -- it gives back what opening acquired.
  pub drop-open_counter :
      (counter : HwCounter) (uses : List Use) (s : State) (c : PerfCounter)
      → (open_counter os counter s).0 ≡ ok c
      → let opened = (open_counter os counter s).1 in
        held (Perf.drop os c (use_all c uses opened)).calls ≡ held s.calls
  unfolding Perf.drop
  drop-open_counter counter uses s c h =
      rw (use_all-held c uses (open_counter os counter s).1)
        (rw (opened-held counter s c h) (give_back_first (descriptor c.fd) (held s.calls)))

  -- A value is read exactly if the system says that it read eight bytes, and it is the value read.
  pub read_value_iff :
      (c : PerfCounter) (s : State) (value : ℕ)
      → ((read_value os c s).0 ≡ ok value) ↔ (os.read_counter_answer s.calls c.fd ≡ (pos 8, value))
  unfolding read_value
  read_value_iff c s value = grind arith
