-- ===== src/Client/Requests.antt =====
-- src/mlock.rs, src/readahead.rs and `pin_to_core` of src/affinity.rs: the operations that make one
-- call of the system each, one behind another. Each is described by what it asks for, without the code.
use kernelkit.Common.{
  ℕ, zero, suc, ◌^◌, ◌<◌, ◌≡◌, ◌≢◌, ◌↔◌, ◌⊎◌, inl, refl, ℤ, pos, List, [], ◌∷◌, Option, none, some,
  ltb, ◌==◌, ◌&&◌, ◌||◌, if◌then◌else◌, arith,
}
use kernelkit.Errors.{
  Error, Result, ok, err, null_pointer, system, custom, invalid_input, kind, text, errno,
}
use kernelkit.Machine.{Calls, Event, dont_need, sequential_reads, Os, State, M, note}
use kernelkit.Locking.{lock_region, unlock_region}
use kernelkit.PageCache.{readahead, evict_pages, advise_sequential}
use kernelkit.Affinity.Pinning.{core_mask, pin_to_core}

pub data Request : Type 0 where
  lock : (ptr len : ℕ) → Request
  unlock : (ptr len : ℕ) → Request
  read_ahead : (fd offset count : ℕ) → Request
  evict : (fd offset len : ℕ) → Request
  advise : (fd : ℕ) → Request
  pin : (core_id : ℕ) → Request

-- What can be asked for at all.
abbrev pub IsSound : Request → Type 0
IsSound (lock ptr len) = (len ≡ 0) ⊎ (ptr ≢ 0)
IsSound (unlock ptr len) = (len ≡ 0) ⊎ (ptr ≢ 0)
IsSound (read_ahead fd offset count) = offset < 2 ^ 63
IsSound (evict fd offset len) = (offset < 2 ^ 63) × (len < 2 ^ 63)
IsSound (advise fd) = Unit {0}
IsSound (pin core_id) = core_id < 1024

-- The call that is due; there is none for an empty region.
abbrev pub due : Request → Option Event
due (lock ptr len) = if ptr == 0 || len == 0 then none else some (Event.mlock ptr len)
due (unlock ptr len) = if ptr == 0 || len == 0 then none else some (Event.munlock ptr len)
due (read_ahead fd offset count) =
    if ltb offset (2 ^ 63) then some (Event.readahead fd offset count) else none
due (evict fd offset len) =
    if ltb offset (2 ^ 63) && ltb len (2 ^ 63)
    then some (Event.fadvise fd offset len dont_need)
    else none
due (advise fd) = some (Event.fadvise fd 0 0 sequential_reads)
due (pin core_id) =
    if ltb core_id 1024 then some (Event.sched_setaffinity (core_mask core_id)) else none

abbrev pub after : Option Event → State → State
after none s = s
after (some event) s = note event s

abbrev pub after_all : List Request → State → State
after_all [] s = s
after_all (r ∷ rs) s = after_all rs (after (due r) s)

module _ (os : Os) where
  abbrev answer : Calls → Request → ℤ
  answer calls (lock ptr len) = os.mlock_answer calls ptr len
  answer calls (unlock ptr len) = os.munlock_answer calls ptr len
  answer calls (read_ahead fd offset count) = os.readahead_answer calls fd offset count
  answer calls (evict fd offset len) = os.fadvise_answer calls fd offset len dont_need
  answer calls (advise fd) = os.fadvise_answer calls fd 0 0 sequential_reads
  answer calls (pin core_id) = os.setaffinity_answer calls (core_mask core_id)

  abbrev IsGranted : State → Request → Option Event → Type 0
  IsGranted s r none = Unit {0}
  IsGranted s r (some event) = answer s.calls r ≡ pos 0

  abbrev pub perform : Request → M (Unit {0})
  perform (lock ptr len) = lock_region os ptr len
  perform (unlock ptr len) = unlock_region os ptr len
  perform (read_ahead fd offset count) = readahead os fd offset count
  perform (evict fd offset len) = evict_pages os fd offset len
  perform (advise fd) = advise_sequential os fd
  perform (pin core_id) = pin_to_core os core_id

  -- The results of the requests that are performed one behind another, failed or not.
  abbrev pub perform_all : List Request → State → List (Result (Unit {0})) × State
  perform_all [] s = ([], s)
  perform_all (r ∷ rs) s =
      let (result, s') = perform r s in
      let (results, s'') = perform_all rs s' in (result ∷ results, s'')

  perform-after : (r : Request) (s : State) → (perform r s).1 ≡ after (due r) s
  unfolding lock_region unlock_region readahead evict_pages advise_sequential pin_to_core
  perform-after (lock ptr zero) s = grind arith
  perform-after (lock zero (suc len)) s = grind arith
  perform-after (lock (suc ptr) (suc len)) s = grind arith
  perform-after (unlock ptr zero) s = grind arith
  perform-after (unlock zero (suc len)) s = grind arith
  perform-after (unlock (suc ptr) (suc len)) s = grind arith
  perform-after (read_ahead fd offset count) s = grind arith
  perform-after (evict fd offset len) s = grind arith
  perform-after (advise fd) s = grind arith
  perform-after (pin core_id) s = grind arith

  perform_iff :
      (r : Request) (s : State) → ((perform r s).0 ≡ ok tt) ↔ (IsSound r × IsGranted s r (due r))
  unfolding lock_region unlock_region readahead evict_pages advise_sequential pin_to_core
  perform_iff (lock ptr zero) s = grind arith
  perform_iff (lock zero (suc len)) s = grind arith
  perform_iff (lock (suc ptr) (suc len)) s = grind arith
  perform_iff (unlock ptr zero) s = grind arith
  perform_iff (unlock zero (suc len)) s = grind arith
  perform_iff (unlock (suc ptr) (suc len)) s = grind arith
  perform_iff (read_ahead fd offset count) s = grind arith
  perform_iff (evict fd offset len) s = grind arith
  perform_iff (advise fd) s = grind arith
  perform_iff (pin core_id) s = grind arith

  -- The error of a request that cannot be asked for, or that the system does not grant.
  abbrev pub reason : State → Request → Error
  reason s (lock ptr len) =
      if ptr == 0
      then null_pointer
      else system "mlock" (os.last_error (Event.mlock ptr len ∷ s.calls))
  reason s (unlock ptr len) =
      if ptr == 0
      then null_pointer
      else system "munlock" (os.last_error (Event.munlock ptr len ∷ s.calls))
  reason s (read_ahead fd offset count) = system "readahead" (
      if ltb offset (2 ^ 63)
      then os.last_error (Event.readahead fd offset count ∷ s.calls)
      else custom invalid_input (text "offset too large for off64_t"))
  reason s (evict fd offset len) = system "posix_fadvise(DONTNEED)" (
      if ltb offset (2 ^ 63)
      then (if ltb len (2 ^ 63)
          then errno (os.fadvise_answer s.calls fd offset len dont_need)
          else custom invalid_input (text "len too large for off_t"))
      else custom invalid_input (text "offset too large for off_t"))
  reason s (advise fd) =
      system "posix_fadvise(SEQUENTIAL)" (errno (os.fadvise_answer s.calls fd 0 0 sequential_reads))
  reason s (pin core_id) = system "sched_setaffinity" (
      if ltb core_id 1024
      then os.last_error (Event.sched_setaffinity (core_mask core_id) ∷ s.calls)
      else kind invalid_input)

  perform-reason :
      (r : Request) (s : State) → ((perform r s).0 ≡ ok tt) ⊎ ((perform r s).0 ≡ err (reason s r))
  unfolding lock_region unlock_region readahead evict_pages advise_sequential pin_to_core
  perform-reason (lock ptr zero) s = inl refl
  perform-reason (lock ptr (suc len)) s = grind arith
  perform-reason (unlock ptr zero) s = inl refl
  perform-reason (unlock ptr (suc len)) s = grind arith
  perform-reason (read_ahead fd offset count) s = grind arith
  perform-reason (evict fd offset len) s = grind arith
  perform-reason (advise fd) s = grind arith
  perform-reason (pin core_id) s = grind arith

  -- Each result against its request, at the state in which it is performed.
  abbrev pub Explains : State → List Request → List (Result (Unit {0})) → Type 0
  Explains s [] results = results ≡ []
  Explains s (r ∷ rs) [] = ⊥
  Explains s (r ∷ rs) (result ∷ results) =
      ((result ≡ ok tt) ↔ (IsSound r × IsGranted s r (due r)))
      × ((result ≡ ok tt) ⊎ (result ≡ err (reason s r)))
      × Explains (after (due r) s) rs results

  -- Requests that are performed one behind another leave the calls that are due, one for each that
  -- can be asked for and whose region is not empty, in their order, and no others, whatever the system
  -- answers. Each gives a result: success exactly where it can be asked for and the system grants the
  -- call that is due, if any, and elsewhere the error of that request.
  pub perform_all_lem :
      (requests : List Request) (s : State)
      → ((perform_all requests s).1 ≡ after_all requests s)
        × Explains s requests (perform_all requests s).0
  perform_all_lem [] s = (refl, refl)
  perform_all_lem (r ∷ rs) s = rw (perform-after r s) (
      let (calls, results) = perform_all_lem rs (after (due r) s) in
      (calls, (perform_iff r s, perform-reason r s, results)))
