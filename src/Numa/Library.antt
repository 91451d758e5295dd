-- ===== src/Numa/Library.antt =====
-- src/numa.rs: `struct LinuxNuma`, loaded from one of two names and kept in a static cell. The
-- cell's lock is held from the second look to the end of `load`, so a caller sees these steps as one.
use kernelkit.Common.{
  ℤ, is_negative, is_positive, String, Bool, List, [], ◌∷◌, Option, none, some, if◌then◌else◌,
}
use kernelkit.Errors.{
  Result, ok, err, panicked, system, custom, other, text, library_load, symbol_load,
}
use kernelkit.Machine.{Library, Os, State, M, pure, fail, ◌>>=◌, ◌>>◌, call, on_failure}
use kernelkit.Machine.Syscalls as Sys

-- The crate's result of the loader, and of a symbol's look-up.
abbrev loaded : String → Option String → M (Unit {0})
loaded name none = pure tt
loaded name (some source) = fail (library_load name source)

abbrev resolved : String → String → Option String → M (Unit {0})
resolved name symbol none = pure tt
resolved name symbol (some source) = fail (symbol_load name symbol source)

module _ (os : Os) where
  abbrev symbol : String → String → M (Unit {0})
  symbol name sym = call (Sys.find_symbol os name sym) >>= resolved name sym

  -- A library that says it is not available is dropped.
  abbrev if_available : String → ℤ → M (Option Library)
  if_available name state s =
      if is_negative state
      then (ok none, Sys.close_library os name s)
      else (ok (some (record { name = name })), s)

  -- `LinuxNuma::load_from_name`
  unfoldable pub load_from_name : String → M (Option Library)
  load_from_name name = do
    answer ← call (Sys.load_library os name)
    loaded name answer
    on_failure (Sys.close_library os name) do
      symbol name "numa_available"
      symbol name "numa_max_node"
      symbol name "numa_run_on_node"
      symbol name "numa_tonode_memory"
      state ← call (Sys.numa_available os)
      if_available name state

  -- One turn of the loop of `try_load`: a library ends it, an absent one and a failed load do not,
  -- any other error does.
  abbrev pub candidate :
      Result (Option Library) × State → M (Option Library) → Result (Option Library) × State
  candidate (ok (some library), s) rest = (ok (some library), s)
  candidate (ok none, s) rest = rest s
  candidate (err (library_load name source), s) rest = rest s
  candidate (err e, s) rest = (err e, s)
  candidate (panicked, s) rest = (panicked, s)

  unfoldable pub try_candidates : List String → M (Option Library)
  unfolding load_from_name
  try_candidates [] s = (ok none, s)
  try_candidates (name ∷ names) s = candidate (load_from_name name s) (try_candidates names)

  -- `LinuxNuma::try_load`
  abbrev pub try_load : M (Option Library)
  try_load = try_candidates ("libnuma.so.1" ∷ "libnuma.so" ∷ [])

  abbrev drop_library : Option Library → State → State
  drop_library none s = s
  drop_library (some library) s = Sys.close_library os library.name s

  -- `OnceLock::set`; a cell that is filled gives the value back, which is dropped.
  abbrev set_cell : Option Library → State → State
  set_cell value s = elim s.library [
    | none ↦ record s { library = some value }
    | some _ ↦ drop_library value s
  ]

  abbrev get_cell : M (Option Library)
  get_cell s = elim s.library [
    | some value ↦ (ok value, s)
    | none ↦ (
      err (
          system "numa library load"
            (custom other (text "OnceLock initialization failed unexpectedly"))),
      s,
    )
  ]

  abbrev store : Option Library → M (Option Library)
  store value s = get_cell (set_cell value s)

  -- `LinuxNuma::load`
  unfoldable pub load : M (Option Library)
  unfolding try_candidates
  load s = elim s.library [ some value ↦ (ok value, s) | none ↦ (try_load >>= store) s ]

  -- `LinuxNuma::max_node` and `has_multiple_nodes`
  unfoldable pub max_node : State → ℤ × State
  max_node s = Sys.numa_max_node os (Sys.numa_available os s).1

  unfoldable pub has_multiple_nodes : State → Bool × State
  unfolding max_node
  has_multiple_nodes s = let (n, s') = max_node s in (is_positive n, s')
