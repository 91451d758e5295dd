-- ===== src/Runs/Clients.antt =====
-- A client that maps a file, makes a vector and opens a counter, and drops the three in another order.
use kernelkit.Common.{ℕ, List, [], ◌∷◌, ◌≡◌, refl, Option, some, arith}
use kernelkit.Lengths.{TypeInfo}
use kernelkit.Mmap.File.{MmapAdvice}
use kernelkit.Perf.{cycles}
use kernelkit.Hugepages.Constructors.{by_try_new}
use kernelkit.Client.{
  Action, open_file, make_vector, start_counter, drop_handle, Client, perform_all,
}
use kernelkit.Client.Balance.{NoNull, SmallDescriptors, IsEven, perform_all-IsEven}
use kernelkit.Runs.Systems.{willing, start, the_file}

abbrev words : TypeInfo
words = record { size = 8; align = 8; type_name = "u64" }

abbrev sevens : ℕ → Option ℕ
sevens _ = some 7

abbrev actions : List Action
actions =
    open_file the_file MmapAdvice.random
    ∷ make_vector by_try_new 3
    ∷ start_counter cycles
    ∷ drop_handle 1
    ∷ drop_handle 1
    ∷ drop_handle 0
    ∷ []

abbrev fresh : Client ℕ
fresh = record { handles = []; state = start }

willing-NoNull : NoNull willing
willing-NoNull calls len hugetlb e = ground arith

willing-SmallDescriptors : SmallDescriptors willing
willing-SmallDescriptors calls kind config size fd e = ground arith

perform_all-IsEven_example : IsEven (perform_all willing words sevens actions fresh) []
perform_all-IsEven_example =
    perform_all-IsEven willing words sevens willing-NoNull willing-SmallDescriptors actions fresh []
      (λ x. omega arith)

all_dropped : (perform_all willing words sevens actions fresh).handles ≡ []
unfolding kernelkit.Client.take_out kernelkit.Perf.open_counter kernelkit.Hugepages.Vector.try_new
    kernelkit.Hugepages.Allocation.new kernelkit.Lengths.checked_len
    kernelkit.Hugepages.Allocation.align_up kernelkit.Hugepages.Allocation.init
    kernelkit.Mmap.File.open_with_advice
all_dropped = refl
