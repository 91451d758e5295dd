-- ===== src/Machine/Syscalls.antt =====
-- The calls that leave the crate: each is noted, and answered by the `Os`. A C return value that
-- must be 0 is turned into the crate's error by `check`.
use kernelkit.Common.{ℕ, ℤ, String, Bool, List, Option, is_zero, if◌then◌else◌}
use kernelkit.Errors.{ok, err, Io, system}
use kernelkit.Text.{Text}
use kernelkit.Machine.{FilePath, Metadata, Mapping, Advice, FileAdvice, Event, Os, State, M, note}

module _ (os : Os) where
  -- `Error::System { operation, source: last_os_error() }` unless the result is 0.
  abbrev pub check : String → ℤ → M (Unit {0})
  check operation result s =
      if is_zero result then (ok tt, s) else (err (system operation (os.last_error s.calls)), s)

  abbrev pub mmap_anon : ℕ → Bool → State → Option ℕ × State
  mmap_anon len hugetlb s =
      let answer = os.mmap_anon_answer s.calls len hugetlb in
      (answer, note (Event.mmap_anon len hugetlb answer) s)

  abbrev pub munmap : ℕ → ℕ → State → State
  munmap ptr len s = note (Event.munmap ptr len) s

  abbrev pub madvise : ℕ → ℕ → Advice → State → ℤ × State
  madvise ptr len advice s =
      (os.madvise_answer s.calls ptr len advice, note (Event.madvise ptr len advice) s)

  abbrev pub mbind : ℕ → ℕ → List ℕ → ℕ → State → ℤ × State
  mbind ptr len nodemask maxnode s = (
    os.mbind_answer s.calls ptr len nodemask maxnode,
    note (Event.mbind ptr len nodemask maxnode) s,
  )

  abbrev pub open_file : FilePath → State → Io ℕ × State
  open_file path s =
      let answer = os.open_answer s.calls path in (answer, note (Event.open_file path answer) s)

  abbrev pub fstat : ℕ → State → Io Metadata × State
  fstat fd s = (os.fstat_answer s.calls fd, note (Event.fstat fd) s)

  -- `memmap2::MmapOptions::map`, with or without `populate`.
  abbrev pub map_file : ℕ → Bool → State → Io Mapping × State
  map_file fd populate s =
      let answer = os.map_answer s.calls fd populate in
      (answer, note (Event.map_file fd populate answer) s)

  abbrev pub close_file : ℕ → State → State
  close_file fd s = note (Event.close_file fd) s

  -- The drop of a `memmap2::Mmap`.
  abbrev pub drop_mapping : Mapping → State → State
  drop_mapping m s = note (Event.munmap m.ptr m.len) s

  abbrev pub reserve : ℕ → ℕ → State → Io ℕ × State
  reserve size count s = (os.reserve_answer s.calls size count, note (Event.reserve count) s)

  abbrev pub drop_values : ℕ → ℕ → State → State
  drop_values ptr count s = note (Event.drop_values ptr count) s

  abbrev pub read_text : String → State → Io Text × State
  read_text path s = (os.read_text_answer s.calls path, note (Event.read_text path) s)

  abbrev pub list_names : String → State → Io (List Text) × State
  list_names path s = (os.list_names_answer s.calls path, note (Event.list_names path) s)

  abbrev pub load_library : String → State → Option String × State
  load_library name s =
      let answer = os.load_answer s.calls name in (answer, note (Event.load_library name answer) s)

  abbrev pub find_symbol : String → String → State → Option String × State
  find_symbol library symbol s =
      (os.symbol_answer s.calls library symbol, note (Event.find_symbol library symbol) s)

  abbrev pub close_library : String → State → State
  close_library name s = note (Event.close_library name) s

  abbrev pub numa_available : State → ℤ × State
  numa_available s = (os.numa_available_answer s.calls, note Event.numa_available s)

  abbrev pub numa_max_node : State → ℤ × State
  numa_max_node s = (os.numa_max_node_answer s.calls, note Event.numa_max_node s)

  abbrev pub numa_run_on_node : ℕ → State → ℤ × State
  numa_run_on_node node s = (os.numa_run_answer s.calls node, note (Event.numa_run_on_node node) s)

  abbrev pub numa_tonode_memory : ℕ → ℕ → ℕ → State → ℤ × State
  numa_tonode_memory ptr len node s =
      (os.numa_tonode_answer s.calls ptr len node, note (Event.numa_tonode_memory ptr len node) s)

  abbrev pub sched_setaffinity : List ℕ → State → ℤ × State
  sched_setaffinity mask s =
      (os.setaffinity_answer s.calls mask, note (Event.sched_setaffinity mask) s)

  abbrev pub mlock : ℕ → ℕ → State → ℤ × State
  mlock ptr len s = (os.mlock_answer s.calls ptr len, note (Event.mlock ptr len) s)

  abbrev pub munlock : ℕ → ℕ → State → ℤ × State
  munlock ptr len s = (os.munlock_answer s.calls ptr len, note (Event.munlock ptr len) s)

  abbrev pub readahead : ℕ → ℕ → ℕ → State → ℤ × State
  readahead fd offset count s =
      (os.readahead_answer s.calls fd offset count, note (Event.readahead fd offset count) s)

  abbrev pub fadvise : ℕ → ℕ → ℕ → FileAdvice → State → ℤ × State
  fadvise fd offset len advice s =
      (os.fadvise_answer s.calls fd offset len advice, note (Event.fadvise fd offset len advice) s)

  abbrev pub perf_event_open : ℕ → ℕ → ℕ → State → ℤ × State
  perf_event_open kind config size s =
      let answer = os.perf_open_answer s.calls kind config size in
      (answer, note (Event.perf_event_open kind config size answer) s)

  abbrev pub read_counter : ℕ → State → (ℤ × ℕ) × State
  read_counter fd s = (os.read_counter_answer s.calls fd, note (Event.read_counter fd) s)

  abbrev pub reset_counter : ℕ → State → ℤ × State
  reset_counter fd s = (os.reset_counter_answer s.calls fd, note (Event.reset_counter fd) s)
