-- ===== src/Client/Balance.antt =====
-- What a client holds against what the system has given.
use kernelkit.Common.{
  ℕ, zero, suc, ◌+◌, ◌-◌, ◌^◌, ◌≤◌, ◌≡◌, ◌≢◌, ap, ◌∙◌, Bool, List, [], ◌∷◌, Option, none, some, pos,
  arith,
}
use kernelkit.Errors.{Result, ok, err, panicked}
use kernelkit.Lengths.{TypeInfo}
use kernelkit.Machine.{Calls, Os, State}
use kernelkit.Machine.Held.{Resource, mapping, descriptor, held, owned, Balanced}
use kernelkit.Mmap.Block
use kernelkit.Mmap.Block.{MmapBlock}
use kernelkit.Mmap.File.{open_with_advice, open_read_with_size, release}
use kernelkit.Mmap.Ownership.{
  new-Balanced, new_on_node-Balanced, open_with_advice-Balanced, open_read_with_size-Balanced,
}
use kernelkit.Hugepages.Vector
use kernelkit.Hugepages.Vector.{HugePageVec, standard, huge}
use kernelkit.Hugepages.Constructors.{Constructor, construct, by_new, by_new_fallible, by_try_new}
use kernelkit.Hugepages.Ownership.{constructors-Balanced, its_resources}
use kernelkit.Corpus.Mapping.{MmapCorpus, open_with_limits, drop_corpus}
use kernelkit.Corpus.Ownership.{open_with_limits-held, left_by}
use kernelkit.Perf as Perf
use kernelkit.Perf.{PerfCounter, open_counter}
use kernelkit.Perf.Ownership.{open_counter-Balanced}
use kernelkit.Client.{
  Handle, block, file, vector, corpus, counter, resources, all_resources, Action, new_block,
  new_block_on, open_file, open_sized, make_vector, open_corpus, start_counter, drop_handle, Client,
  acquired, take_out, drop, dropped, put_back, perform, perform_all,
}
use kernelkit.Client.Ledger.{
  count, count-append, count-give_back, count-pushed, count-drop_regions, none_held,
}

-- A system that maps no anonymous memory at address 0, and whose descriptors are C ints.
abbrev pub NoNull : Os → Type 0
NoNull os =
    (calls : Calls) (len : ℕ) (hugetlb : Bool) → os.mmap_anon_answer calls len hugetlb ≢ some 0

abbrev pub SmallDescriptors : Os → Type 0
SmallDescriptors os =
    (calls : Calls) (kind config size fd : ℕ)
    → os.perf_open_answer calls kind config size ≡ pos fd
    → fd ≤ 2 ^ 31 - 1

module _ {A : Type 0} where
  -- Each resource is held as often as the client's handles and what was held before name it.
  abbrev pub IsEven : Client A → List Resource → Type 0
  IsEven c before =
      (x : Resource)
      → count x (held c.state.calls) ≡ count x (all_resources c.handles) + count x before

  -- What a result gives, counted.
  abbrev Gives : {B : Type 0} → (B → Handle A) → State → Result B × State → Type 0
  Gives handle s p =
      (x : Resource)
      → count x (held p.1.calls)
        ≡ count x (owned (λ b. resources (handle b)) p.0) + count x (held s.calls)

  Balanced-Gives :
      {B : Type 0} (handle : B → Handle A) (s : State) (p : Result B × State)
      → Balanced (λ b. resources (handle b)) s p
      → Gives handle s p
  Balanced-Gives handle s p h x =
      ap (count x) h ∙ count-append x (owned (λ b. resources (handle b)) p.0) (held s.calls)

  acquired-IsEven :
      {B : Type 0} (handle : B → Handle A) (c : Client A) (before : List Resource)
      (p : Result B × State)
      → IsEven c before
      → Gives handle c.state p
      → IsEven (acquired handle c.handles p) before
  acquired-IsEven handle c before (ok b, s) h g x =
      ground (arith, h x, g x, count-append x (resources (handle b)) (all_resources c.handles))
  acquired-IsEven handle c before (err e, s) h g x = ground (arith, h x, g x)
  acquired-IsEven handle c before (panicked, s) h g x = ground (arith, h x, g x)

  Balanced-IsEven :
      {B : Type 0} (handle : B → Handle A) (c : Client A) (before : List Resource)
      (p : Result B × State)
      → IsEven c before
      → Balanced (λ b. resources (handle b)) c.state p
      → IsEven (acquired handle c.handles p) before
  Balanced-IsEven handle c before p h b =
      acquired-IsEven handle c before p h (Balanced-Gives handle c.state p b)

  module _ (os : Os) where
    drop-count :
        (h : Handle A) (s : State) (x : Resource)
        → count x (held (drop os h s).calls) ≡ count x (held s.calls) - count x (resources h)
    unfolding Block.drop Block.unmap_region release Vector.drop drop_corpus Perf.drop
    drop-count (block b) s x = count-give_back x (mapping b.ptr b.len) (held s.calls)
    drop-count (file m) s x = count-give_back x (mapping m.ptr m.len) (held s.calls)
    drop-count (vector (standard values)) s x = omega arith
    drop-count (vector (huge a)) s x = count-give_back x (mapping a.ptr a.map_len) (held s.calls)
    drop-count (corpus c) s x = count-drop_regions os x c.mappings s
    drop-count (counter c) s x = count-give_back x (descriptor c.fd) (held s.calls)

  -- A handle that is taken out, and the others.
  abbrev Parts : List (Handle A) → Option (Handle A × List (Handle A)) → Type 0
  Parts hs none = Unit {0}
  Parts hs (some (h, rest)) =
      (x : Resource)
      → count x (all_resources hs) ≡ count x (resources h) + count x (all_resources rest)

  put_back-Parts :
      (h : Handle A) (hs : List (Handle A)) (o : Option (Handle A × List (Handle A)))
      → Parts hs o
      → Parts (h ∷ hs) (put_back h o)
  put_back-Parts h hs none k = tt
  put_back-Parts h hs (some (h', rest)) k = λ x. omega (
    arith,
    k x,
    count-append x (resources h) (all_resources hs),
    count-append x (resources h) (all_resources rest),
  )

  take_out-Parts : (i : ℕ) (hs : List (Handle A)) → Parts hs (take_out i hs)
  unfolding take_out
  take_out-Parts i [] = tt
  take_out-Parts zero (h ∷ hs) = λ x. count-append x (resources h) (all_resources hs)
  take_out-Parts (suc i) (h ∷ hs) = put_back-Parts h hs (take_out i hs) (take_out-Parts i hs)

  dropped-IsEven :
      (os : Os) (c : Client A) (before : List Resource) (o : Option (Handle A × List (Handle A)))
      → IsEven c before
      → Parts c.handles o
      → IsEven (dropped os c o) before
  dropped-IsEven os c before none h k = h
  dropped-IsEven os c before (some (g, rest)) h k =
      λ x. omega (arith, h x, k x, drop-count os g c.state x)

corpus-Gives :
    (A : Type 0) (os : Os) (s : State) (p : Result MmapCorpus × State)
    → held p.1.calls ≡ left_by os p.0 (held s.calls)
    → Gives {A = A} corpus s p
corpus-Gives A os s (ok c, s') h x = ap (count x) h ∙ count-pushed x c.mappings (held s.calls)
corpus-Gives A os s (err e, s') h x = ap (count x) h ∙ omega arith
corpus-Gives A os s (panicked, s') h x = ap (count x) h ∙ omega arith

module _ {A : Type 0} (os : Os) (T : TypeInfo) (default : ℕ → Option A) (no_null : NoNull os)
    (small : SmallDescriptors os) where
  construct-Balanced :
      (k : Constructor) (n : ℕ) (s : State)
      → Balanced its_resources s (construct os T default n s k)
  construct-Balanced by_try_new n s = (constructors-Balanced os T default n s).0
  construct-Balanced by_new_fallible n s = (constructors-Balanced os T default n s).1
  construct-Balanced by_new n s = (constructors-Balanced os T default n s).2

  perform-IsEven :
      (a : Action) (c : Client A) (before : List Resource)
      → IsEven c before
      → IsEven (perform os T default a c) before
  perform-IsEven (new_block len) c before h =
      Balanced-IsEven block c before (Block.new os len c.state) h
        (new-Balanced os no_null len c.state)
  perform-IsEven (new_block_on len node) c before h =
      Balanced-IsEven block c before (Block.new_on_node os len node c.state) h
        (new_on_node-Balanced os no_null len node c.state)
  perform-IsEven (open_file path advice) c before h =
      Balanced-IsEven file c before (open_with_advice os path advice c.state) h
        (open_with_advice-Balanced os path advice c.state)
  perform-IsEven (open_sized path size) c before h =
      Balanced-IsEven file c before (open_read_with_size os path size c.state) h
        (open_read_with_size-Balanced os path size c.state)
  perform-IsEven (make_vector k n) c before h =
      Balanced-IsEven vector c before (construct os T default n c.state k) h
        (construct-Balanced k n c.state)
  perform-IsEven (start_counter hw) c before h =
      Balanced-IsEven counter c before (open_counter os hw c.state) h
        (open_counter-Balanced os small hw c.state)
  perform-IsEven (open_corpus base listing mf mt) c before h =
      let p = open_with_limits os base listing mf mt c.state in
      acquired-IsEven corpus c before p h
        (corpus-Gives A os c.state p (open_with_limits-held os base listing mf mt c.state))
  perform-IsEven (drop_handle i) c before h =
      dropped-IsEven os c before (take_out i c.handles) h (take_out-Parts i c.handles)

  -- However a client acquires and drops, with failures, panics that are caught and drops in any order,
  -- each mapping and descriptor is held exactly as often as the client's handles and what was held
  -- before name it, for a system that maps no anonymous memory at address 0 and whose descriptors are
  -- C ints.
  pub perform_all-IsEven :
      (actions : List Action) (c : Client A) (before : List Resource)
      → IsEven c before
      → IsEven (perform_all os T default actions c) before
  perform_all-IsEven [] c before h = h
  perform_all-IsEven (a ∷ actions) c before h =
      perform_all-IsEven actions (perform os T default a c) before (perform-IsEven a c before h)

  -- A client that started with nothing and has dropped all its handles has left nothing mapped or open.
  pub dropped_all :
      (actions : List Action) (s : State)
      → held s.calls ≡ []
      → (perform_all os T default actions (record { handles = []; state = s })).handles ≡ []
      → held (perform_all os T default actions (record { handles = []; state = s })).state.calls
        ≡ []
  dropped_all actions s h empty =
      let start : Client A = record { handles = []; state = s } in
      let c = perform_all os T default actions start in
      let even = perform_all-IsEven actions start [] (λ x. ap (count x) h ∙ omega arith) in
      none_held (held c.state.calls)
        (λ x. even x ∙ ap (λ hs. count x (all_resources hs) + 0) empty ∙ omega arith)
