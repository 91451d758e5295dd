-- ===== src/Client.antt =====
-- A client of the crate: it acquires blocks, maps of files, vectors, corpora and counters in any order,
-- and drops what it holds in any order.
pub mod Ledger
pub mod Balance
pub mod Requests
use kernelkit.Common.{ℕ, zero, suc, List, [], ◌∷◌, ◌++◌, Option, none, some}
use kernelkit.Errors.{Result, ok, err, panicked}
use kernelkit.Lengths.{TypeInfo}
use kernelkit.Machine.{FilePath, Mapping, Os, State}
use kernelkit.Machine.Held.{Resource, mapping, descriptor}
use kernelkit.Mmap.Block
use kernelkit.Mmap.Block.{MmapBlock}
use kernelkit.Mmap.File.{MmapAdvice, open_with_advice, open_read_with_size, release}
use kernelkit.Hugepages.Vector
use kernelkit.Hugepages.Vector.{HugePageVec, standard, huge}
use kernelkit.Hugepages.Ownership.{its_resources}
use kernelkit.Hugepages.Constructors.{Constructor, construct}
use kernelkit.Corpus.Walk.{Listing}
use kernelkit.Corpus.Mapping.{MmapRegion, MmapCorpus, open_with_limits, drop_corpus}
use kernelkit.Perf as Perf
use kernelkit.Perf.{HwCounter, PerfCounter, open_counter}

-- What a client holds.
pub data Handle (A : Type 0) : Type 0 where
  block : MmapBlock → Handle A
  file : Mapping → Handle A
  vector : HugePageVec A → Handle A
  corpus : MmapCorpus → Handle A
  counter : PerfCounter → Handle A

abbrev pub of_regions : List MmapRegion → List Resource
of_regions [] = []
of_regions (r ∷ rs) = mapping r.mmap.ptr r.mmap.len ∷ of_regions rs

-- What the system has given for it.
abbrev pub resources : {A : Type 0} → Handle A → List Resource
resources (block b) = mapping b.ptr b.len ∷ []
resources (file m) = mapping m.ptr m.len ∷ []
resources (vector v) = its_resources v
resources (corpus c) = of_regions c.mappings
resources (counter c) = descriptor c.fd ∷ []

abbrev pub all_resources : {A : Type 0} → List (Handle A) → List Resource
all_resources [] = []
all_resources (h ∷ hs) = resources h ++ all_resources hs

pub data Action : Type 0 where
  new_block : (len : ℕ) → Action
  new_block_on : (len node : ℕ) → Action
  open_file : (path : FilePath) (advice : MmapAdvice) → Action
  open_sized : (path : FilePath) (size : ℕ) → Action
  make_vector : (constructor : Constructor) (count : ℕ) → Action
  open_corpus : (base : FilePath) (listing : Listing) (max_file max_total : ℕ) → Action
  start_counter : HwCounter → Action
  drop_handle : (index : ℕ) → Action

pub record Client (A : Type 0) : Type 0 where
  pub handles : List (Handle A)
  pub state : State

module _ {A : Type 0} where
  -- A result that is held; an error and a panic that is caught leave what was held.
  abbrev pub acquired :
      {B : Type 0} → (B → Handle A) → List (Handle A) → Result B × State → Client A
  acquired handle hs (ok b, s) = record { handles = handle b ∷ hs; state = s }
  acquired handle hs (err e, s) = record { handles = hs; state = s }
  acquired handle hs (panicked, s) = record { handles = hs; state = s }

  abbrev pub put_back :
      Handle A → Option (Handle A × List (Handle A)) → Option (Handle A × List (Handle A))
  put_back h none = none
  put_back h (some (h', hs)) = some (h', h ∷ hs)

  -- The handle at an index, and the others.
  unfoldable pub take_out : ℕ → List (Handle A) → Option (Handle A × List (Handle A))
  take_out i [] = none
  take_out zero (h ∷ hs) = some (h, hs)
  take_out (suc i) (h ∷ hs) = put_back h (take_out i hs)

  module _ (os : Os) where
    abbrev pub drop : Handle A → State → State
    drop (block b) s = Block.drop os b s
    drop (file m) s = release os m s
    drop (vector v) s = Vector.drop os v s
    drop (corpus c) s = drop_corpus os c s
    drop (counter c) s = Perf.drop os c s

    abbrev pub dropped : Client A → Option (Handle A × List (Handle A)) → Client A
    dropped c none = c
    dropped c (some (h, hs)) = record { handles = hs; state = drop h c.state }

    module _ (T : TypeInfo) (default : ℕ → Option A) where
      abbrev pub perform : Action → Client A → Client A
      perform (new_block len) c = acquired block c.handles (Block.new os len c.state)
      perform (new_block_on len node) c =
          acquired block c.handles (Block.new_on_node os len node c.state)
      perform (open_file path advice) c =
          acquired file c.handles (open_with_advice os path advice c.state)
      perform (open_sized path size) c =
          acquired file c.handles (open_read_with_size os path size c.state)
      perform (make_vector k count) c =
          acquired vector c.handles (construct os T default count c.state k)
      perform (open_corpus base listing max_file max_total) c =
          acquired corpus c.handles (open_with_limits os base listing max_file max_total c.state)
      perform (start_counter hw) c = acquired counter c.handles (open_counter os hw c.state)
      perform (drop_handle i) c = dropped c (take_out i c.handles)

      abbrev pub perform_all : List Action → Client A → Client A
      perform_all [] c = c
      perform_all (a ∷ actions) c = perform_all actions (perform a c)
