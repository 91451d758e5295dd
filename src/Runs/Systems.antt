-- ===== src/Runs/Systems.antt =====
-- Three systems that answer the same on every call: one grants what it is asked for, one has no huge
-- pages, and one also refuses memory, locks and bindings.
use kernelkit.Common.{pos, negsuc, [], ◌∷◌, none, some, if◌then◌else◌}
use kernelkit.Errors.{errno, done, failed}
use kernelkit.Text.{codes}
use kernelkit.Machine.{Metadata, Mapping, FilePath, Os, State}

-- A file of five bytes, and where it is mapped.
abbrev pub five_bytes : Metadata
five_bytes = record { len = 5; dev = 1; ino = 2 }

abbrev pub five_mapped : Mapping
five_mapped = record { ptr = 8192; len = 5 }

abbrev pub the_file : FilePath
the_file = codes "a" ∷ []

abbrev pub willing : Os
willing = record {
  last_error = λ _. errno (pos 5);
  mmap_anon_answer = λ _ _ _. some 4096;
  madvise_answer = λ _ _ _ _. pos 0;
  mbind_answer = λ _ _ _ _ _. pos 0;
  open_answer = λ _ _. done 3;
  fstat_answer = λ _ _. done five_bytes;
  map_answer = λ _ _ _. done five_mapped;
  reserve_answer = λ _ _ _. done 16;
  read_text_answer = λ _ _. done (codes "0-1");
  list_names_answer = λ _ _. done (codes "node0" ∷ []);
  load_answer = λ _ _. some "not found";
  symbol_answer = λ _ _ _. none;
  numa_available_answer = λ _. pos 0;
  numa_max_node_answer = λ _. pos 1;
  numa_run_answer = λ _ _. pos 0;
  numa_tonode_answer = λ _ _ _ _. pos 0;
  getcpu_answer = λ _. some 0;
  setaffinity_answer = λ _ _. pos 0;
  mlock_answer = λ _ _ _. pos 0;
  munlock_answer = λ _ _ _. pos 0;
  readahead_answer = λ _ _ _ _. pos 0;
  fadvise_answer = λ _ _ _ _ _. pos 0;
  perf_open_answer = λ _ _ _ _. pos 7;
  read_counter_answer = λ _ _. (pos 8, 99);
  reset_counter_answer = λ _ _. pos 0;
}

abbrev pub reluctant : Os
reluctant = record willing {
  mmap_anon_answer = λ _ _ hugetlb. if hugetlb then none else some 4096;
  mbind_answer = λ _ _ _ _ _. negsuc 0;
  mlock_answer = λ _ _ _. negsuc 0;
  fadvise_answer = λ _ _ _ _ _. pos 9;
  reserve_answer = λ _ _ _. failed (errno (pos 12));
}

-- No huge pages, and the rest as `willing`.
abbrev pub plain : Os
plain = record willing { mmap_anon_answer = λ _ _ hugetlb. if hugetlb then none else some 4096 }

abbrev pub start : State
start = record { calls = []; library = none }
