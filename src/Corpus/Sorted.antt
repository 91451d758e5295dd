-- ===== src/Corpus/Sorted.antt =====
-- src/corpus.rs: the order of the sorted paths.
use kernelkit.Common.{
  List, [], ◌∷◌, Bool, true, false, if◌then◌else◌, Bool-cases, inl, inr, ◌≡◌, refl, arith,
}
use kernelkit.Text.{Text}
use kernelkit.Machine.{FilePath}
use kernelkit.Corpus.Order.{compare_text, compare_path, le_path, insert_path, sort}
use mathlib.Core.List.{Perm}
use mathlib.Core.List.Perm
use Prim.Native.Nat.{Ordering}

pub compare_text_flip :
    (s t : Text) → compare_text s t ≡ Ordering.gt → compare_text t s ≡ Ordering.lt
unfolding compare_text
compare_text_flip [] [] h = cc
compare_text_flip [] (d ∷ t) h = cc
compare_text_flip (c ∷ s) [] h = refl
compare_text_flip (c ∷ s) (d ∷ t) h = ground (arith, compare_text_flip s t)

pub compare_text_eq : (s t : Text) → compare_text s t ≡ Ordering.eq → s ≡ t
unfolding compare_text
compare_text_eq [] [] h = refl
compare_text_eq [] (d ∷ t) h = cc
compare_text_eq (c ∷ s) [] h = cc
compare_text_eq (c ∷ s) (d ∷ t) h = ground (arith, compare_text_eq s t)

pub compare_text_self : (s : Text) → compare_text s s ≡ Ordering.eq
unfolding compare_text
compare_text_self [] = refl
compare_text_self (c ∷ s) = ground (arith, compare_text_self s)

pub compare_path_flip :
    (p q : FilePath) → compare_path p q ≡ Ordering.gt → compare_path q p ≡ Ordering.lt
unfolding compare_path
compare_path_flip [] [] h = cc
compare_path_flip [] (d ∷ q) h = cc
compare_path_flip (c ∷ p) [] h = refl
compare_path_flip (c ∷ p) (d ∷ q) h =
    ground (
      arith,
      compare_text_flip c d,
      compare_text_eq c d,
      compare_text_self c,
      compare_path_flip p q,
    )

-- Each path is at most the next.
abbrev pub IsSorted : List FilePath → Type 0
IsSorted [] = Unit {0}
IsSorted (p ∷ []) = Unit {0}
IsSorted (p ∷ q ∷ qs) = (le_path p q ≡ true) × IsSorted (q ∷ qs)

insert_path-IsSorted_behind :
    (p q : FilePath) (qs : List FilePath)
    → le_path q p ≡ true
    → IsSorted (q ∷ qs)
    → IsSorted (insert_path p qs)
    → IsSorted (q ∷ insert_path p qs)
unfolding insert_path
insert_path-IsSorted_behind p q [] h s s' = (h, tt)
insert_path-IsSorted_behind p q (r ∷ qs) h (hr, s) s' = elim (Bool-cases (le_path p r)) [
  | inl e ↦ ground arith
  | inr e ↦ ground arith
]

IsSorted-tail : (q : FilePath) (qs : List FilePath) → IsSorted (q ∷ qs) → IsSorted qs
IsSorted-tail q [] s = tt
IsSorted-tail q (r ∷ qs) s = s.1

insert_path-IsSorted :
    (p : FilePath) (qs : List FilePath) → IsSorted qs → IsSorted (insert_path p qs)
unfolding insert_path
insert_path-IsSorted p [] s = tt
insert_path-IsSorted p (q ∷ qs) s = elim (Bool-cases (le_path p q)) [
  | inl e ↦ ground arith
  | inr e ↦
      let rest = insert_path-IsSorted p qs (IsSorted-tail q qs s) in
      let after : le_path q p ≡ true = ground (arith, compare_path_flip p q) in
      ground (arith, insert_path-IsSorted_behind p q qs after s rest)
]

insert_step :
    (p q : FilePath) (qs : List FilePath) (b : Bool)
    → Perm (insert_path p qs) (p ∷ qs)
    → Perm (if b then p ∷ q ∷ qs else q ∷ insert_path p qs) (p ∷ q ∷ qs)
insert_step p q qs true h = Perm.refl (p ∷ q ∷ qs)
insert_step p q qs false h = Perm.trans (Perm.cons q h) (Perm.swap p q qs)

insert_path-perm : (p : FilePath) (qs : List FilePath) → Perm (insert_path p qs) (p ∷ qs)
unfolding insert_path
insert_path-perm p [] = Perm.refl (p ∷ [])
insert_path-perm p (q ∷ qs) = insert_step p q qs (le_path p q) (insert_path-perm p qs)

sort-perm : (ps : List FilePath) → Perm (sort ps) ps
unfolding sort
sort-perm [] = Perm.refl []
sort-perm (p ∷ ps) = Perm.trans (insert_path-perm p (sort ps)) (Perm.cons p (sort-perm ps))

sort-IsSorted : (ps : List FilePath) → IsSorted (sort ps)
unfolding sort
sort-IsSorted [] = tt
sort-IsSorted (p ∷ ps) = insert_path-IsSorted p (sort ps) (sort-IsSorted ps)

-- The sort orders the paths, and its result has the same paths, each as often.
pub sort_lem : (ps : List FilePath) → IsSorted (sort ps) × Perm (sort ps) ps
sort_lem ps = (sort-IsSorted ps, sort-perm ps)
