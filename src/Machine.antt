-- ===== src/Machine.antt =====
-- The system that the crate runs on, as the code sees it. Every call that leaves the crate is an
-- event; an `Os` answers it, and its answer may depend on all the calls before. The state holds the
-- calls made so far, latest first, and the crate's one static cell that system calls fill
-- (`LIBRARY` of src/numa.rs). A fallible operation returns a result and the state behind it, on
-- every path; `defer` and `on_failure` are the drops at the end of a scope.
pub mod Syscalls
pub mod Held
pub mod Inversion
use kernelkit.Common.{ℕ, ℤ, String, Bool, List, ◌∷◌, Option}
use kernelkit.Errors.{Error, Result, ok, err, panicked, IoError, Io}
use kernelkit.Text.{Text}

-- A path as its components.
abbrev pub FilePath : Type 0
FilePath = List Text

-- `std::fs::Metadata`, as far as the source reads it.
pub record Metadata : Type 0 where
  pub len : ℕ
  pub dev : ℕ
  pub ino : ℕ

-- `memmap2::Mmap`: where the mapping lies.
pub record Mapping : Type 0 where
  pub ptr : ℕ
  pub len : ℕ

-- The `MADV_*` flags of the source.
pub data Advice : Type 0 where
  sequential random will_need huge_page : Advice

-- The `POSIX_FADV_*` flags of the source.
pub data FileAdvice : Type 0 where
  dont_need sequential_reads : FileAdvice

-- `struct LinuxNuma`: the shared library that was loaded, by name.
pub record Library : Type 0 where
  pub name : String

pub data Event : Type 0 where
  mmap_anon : (len : ℕ) (hugetlb : Bool) (answer : Option ℕ) → Event
  munmap : (ptr len : ℕ) → Event
  madvise : (ptr len : ℕ) (advice : Advice) → Event
  mbind : (ptr len : ℕ) (nodemask : List ℕ) (maxnode : ℕ) → Event
  open_file : (path : FilePath) (answer : Io ℕ) → Event
  fstat : (fd : ℕ) → Event
  map_file : (fd : ℕ) (populate : Bool) (answer : Io Mapping) → Event
  close_file : (fd : ℕ) → Event
  reserve : (count : ℕ) → Event
  drop_values : (ptr count : ℕ) → Event
  read_text : (path : String) → Event
  list_names : (path : String) → Event
  load_library : (name : String) (answer : Option String) → Event
  find_symbol : (library symbol : String) → Event
  close_library : (name : String) → Event
  numa_available : Event
  numa_max_node : Event
  numa_run_on_node : (node : ℕ) → Event
  numa_tonode_memory : (ptr len node : ℕ) → Event
  getcpu : Event
  sched_setaffinity : (mask : List ℕ) → Event
  mlock : (ptr len : ℕ) → Event
  munlock : (ptr len : ℕ) → Event
  readahead : (fd offset count : ℕ) → Event
  fadvise : (fd offset len : ℕ) (advice : FileAdvice) → Event
  perf_event_open : (kind config size : ℕ) (answer : ℤ) → Event
  read_counter : (fd : ℕ) → Event
  reset_counter : (fd : ℕ) → Event

abbrev pub Calls : Type 0
Calls = List Event

-- What the system answers, from the calls made before.
pub record Os : Type 0 where
  pub last_error : Calls → IoError
  -- `none` is `MAP_FAILED`.
  pub mmap_anon_answer : Calls → ℕ → Bool → Option ℕ
  pub madvise_answer : Calls → ℕ → ℕ → Advice → ℤ
  pub mbind_answer : Calls → ℕ → ℕ → List ℕ → ℕ → ℤ
  pub open_answer : Calls → FilePath → Io ℕ
  pub fstat_answer : Calls → ℕ → Io Metadata
  pub map_answer : Calls → ℕ → Bool → Io Mapping
  -- The buffer of a `Vec`, for an element size and a count: where it lies, or why there is none.
  pub reserve_answer : Calls → ℕ → ℕ → Io ℕ
  pub read_text_answer : Calls → String → Io Text
  pub list_names_answer : Calls → String → Io (List Text)
  -- The loader's error, if there is one.
  pub load_answer : Calls → String → Option String
  pub symbol_answer : Calls → String → String → Option String
  pub numa_available_answer : Calls → ℤ
  pub numa_max_node_answer : Calls → ℤ
  pub numa_run_answer : Calls → ℕ → ℤ
  pub numa_tonode_answer : Calls → ℕ → ℕ → ℕ → ℤ
  -- `none` where `SYS_getcpu` fails.
  pub getcpu_answer : Calls → Option ℕ
  pub setaffinity_answer : Calls → List ℕ → ℤ
  pub mlock_answer : Calls → ℕ → ℕ → ℤ
  pub munlock_answer : Calls → ℕ → ℕ → ℤ
  pub readahead_answer : Calls → ℕ → ℕ → ℕ → ℤ
  pub fadvise_answer : Calls → ℕ → ℕ → ℕ → FileAdvice → ℤ
  pub perf_open_answer : Calls → ℕ → ℕ → ℕ → ℤ
  -- The number of bytes read, or a negative value, and the value that is read.
  pub read_counter_answer : Calls → ℕ → ℤ × ℕ
  pub reset_counter_answer : Calls → ℕ → ℤ

pub record State : Type 0 where
  pub calls : Calls
  -- `static LIBRARY: OnceLock<Option<LinuxNuma>>`
  pub library : Option (Option Library)

abbrev pub M : Type 0 → Type 0
M A = State → Result A × State

abbrev pub note : Event → State → State
note e s = record s { calls = e ∷ s.calls }

abbrev pub pure : {A : Type 0} → A → M A
pure a s = (ok a, s)

abbrev pub fail : {A : Type 0} → Error → M A
fail e s = (err e, s)

-- A result that no call is needed for.
abbrev pub lift : {A : Type 0} → Result A → M A
lift r s = (r, s)

abbrev pub continue : {A B : Type 0} → Result A × State → (A → M B) → Result B × State
continue (ok a, s) f = f a s
continue (err e, s) f = (err e, s)
continue (panicked, s) f = (panicked, s)

infixl 5 ◌>>=◌ ◌>>◌
abbrev pub ◌>>=◌ : {A B : Type 0} → M A → (A → M B) → M B
◌>>=◌ m f s = continue (m s) f

abbrev pub ◌>>◌ : {B : Type 0} → M (Unit {0}) → M B → M B
m >> k = m >>= λ _. k

-- A local that is dropped when its scope ends, however it ends.
abbrev pub defer : {A : Type 0} → (State → State) → M A → M A
defer cleanup body s = let (r, s') = body s in (r, cleanup s')

abbrev pub cleanup_on_failure : {A : Type 0} → (State → State) → Result A × State → Result A × State
cleanup_on_failure cleanup (ok a, s) = (ok a, s)
cleanup_on_failure cleanup (err e, s) = (err e, cleanup s)
cleanup_on_failure cleanup (panicked, s) = (panicked, cleanup s)

-- A local that the body moves into its result, and that is dropped where the body fails.
abbrev pub on_failure : {A : Type 0} → (State → State) → M A → M A
on_failure cleanup body s = cleanup_on_failure cleanup (body s)

-- A call that cannot fail.
abbrev pub call : {A : Type 0} → (State → A × State) → M A
call f s = let (a, s') = f s in (ok a, s')

-- `let _ = call`
abbrev pub ignore : {A : Type 0} → M A → M (Unit {0})
ignore m s = (ok tt, (m s).1)
