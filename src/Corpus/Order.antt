-- ===== src/Corpus/Order.antt =====
-- src/corpus.rs: `file_paths.sort()`, the stable sort of the paths by their components.
use kernelkit.Common.{Bool, true, false, List, [], ◌∷◌, if◌then◌else◌}
use kernelkit.Text.{Text}
use kernelkit.Machine.{FilePath}
use Prim.Native.Nat.{compare, Ordering}

-- `Ord` of `[u8]`
unfoldable pub compare_text : Text → Text → Ordering
compare_text [] [] = Ordering.eq
compare_text [] (d ∷ t) = Ordering.lt
compare_text (c ∷ s) [] = Ordering.gt
compare_text (c ∷ s) (d ∷ t) = elim (compare c d) [
  | Ordering.lt ↦ Ordering.lt
  | Ordering.eq ↦ compare_text s t
  | Ordering.gt ↦ Ordering.gt
]

-- `Ord` of `Path`
unfoldable pub compare_path : FilePath → FilePath → Ordering
unfolding compare_text
compare_path [] [] = Ordering.eq
compare_path [] (d ∷ q) = Ordering.lt
compare_path (c ∷ p) [] = Ordering.gt
compare_path (c ∷ p) (d ∷ q) = elim (compare_text c d) [
  | Ordering.lt ↦ Ordering.lt
  | Ordering.eq ↦ compare_path p q
  | Ordering.gt ↦ Ordering.gt
]

abbrev pub le_path : FilePath → FilePath → Bool
le_path p q = elim (compare_path p q) [ Ordering.gt ↦ false | _ ↦ true ]

-- In front of the first path that is not smaller.
unfoldable pub insert_path : FilePath → List FilePath → List FilePath
insert_path p [] = p ∷ []
insert_path p (q ∷ qs) = if le_path p q then p ∷ q ∷ qs else q ∷ insert_path p qs

unfoldable pub sort : List FilePath → List FilePath
sort [] = []
sort (p ∷ ps) = insert_path p (sort ps)
