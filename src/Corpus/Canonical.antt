-- ===== src/Corpus/Canonical.antt =====
-- src/corpus.rs: the sort gives the same list for every order of the same paths.
use kernelkit.Common.{
  List, [], ◌∷◌, Bool, true, false, if◌then◌else◌, Bool-cases, inl, inr, ◌≡◌, refl, sym, ap, ◌∙◌,
  ◌++◌, arith,
}
use kernelkit.Text.{Text}
use kernelkit.Machine.{FilePath}
use kernelkit.Corpus.Order.{compare_text, compare_path, le_path, insert_path, sort}
use kernelkit.Corpus.Sorted.{compare_text_eq, compare_text_self, compare_path_flip}
use Prim.Native.Nat.{Ordering}

compare_text_trans :
    (s t u : Text)
    → compare_text s t ≡ Ordering.lt
    → compare_text t u ≡ Ordering.lt
    → compare_text s u ≡ Ordering.lt
unfolding compare_text
compare_text_trans [] [] u h k = cc
compare_text_trans [] (d ∷ t) [] h k = cc
compare_text_trans [] (d ∷ t) (e ∷ u) h k = refl
compare_text_trans (c ∷ s) [] u h k = cc
compare_text_trans (c ∷ s) (d ∷ t) [] h k = cc
compare_text_trans (c ∷ s) (d ∷ t) (e ∷ u) h k = ground (arith, compare_text_trans s t u)

compare_path_eq : (p q : FilePath) → compare_path p q ≡ Ordering.eq → p ≡ q
unfolding compare_path
compare_path_eq [] [] h = refl
compare_path_eq [] (d ∷ q) h = cc
compare_path_eq (c ∷ p) [] h = cc
compare_path_eq (c ∷ p) (d ∷ q) h = ground (arith, compare_text_eq c d, compare_path_eq p q)

compare_path_self : (p : FilePath) → compare_path p p ≡ Ordering.eq
unfolding compare_path
compare_path_self [] = refl
compare_path_self (c ∷ p) = ground (arith, compare_text_self c, compare_path_self p)

compare_path_trans :
    (p q r : FilePath)
    → compare_path p q ≡ Ordering.lt
    → compare_path q r ≡ Ordering.lt
    → compare_path p r ≡ Ordering.lt
unfolding compare_path
compare_path_trans [] [] r h k = cc
compare_path_trans [] (d ∷ q) [] h k = cc
compare_path_trans [] (d ∷ q) (e ∷ r) h k = refl
compare_path_trans (c ∷ p) [] r h k = cc
compare_path_trans (c ∷ p) (d ∷ q) [] h k = cc
compare_path_trans (c ∷ p) (d ∷ q) (e ∷ r) h k = ground (
  arith,
  compare_text_trans c d e,
  compare_text_eq c d,
  compare_text_eq d e,
  compare_path_trans p q r,
)

le_path_trans : (p q r : FilePath) → le_path p q ≡ true → le_path q r ≡ true → le_path p r ≡ true
le_path_trans p q r h k =
    ground (arith, compare_path_trans p q r, compare_path_eq p q, compare_path_eq q r)

le_path_antisymm : (p q : FilePath) → le_path p q ≡ true → le_path q p ≡ true → p ≡ q
le_path_antisymm p q h k = ground (
  arith,
  compare_path_eq p q,
  compare_path_eq q p,
  compare_path_flip q p,
  compare_path_flip p q,
  compare_path_trans p q p,
  compare_path_self p,
)

le_path_total : (p q : FilePath) → le_path p q ≡ false → le_path q p ≡ true
le_path_total p q h = ground (arith, compare_path_flip p q)

-- Two insertions at a path that is at least both.
insert_front :
    (p q : FilePath) (l : List FilePath) (b b' : Bool)
    → le_path p q ≡ b
    → le_path q p ≡ b'
    → (if b then p ∷ q ∷ l else q ∷ p ∷ l) ≡ (if b' then q ∷ p ∷ l else p ∷ q ∷ l)
insert_front p q l true true h k = let e = le_path_antisymm p q h k in cc
insert_front p q l true false h k = refl
insert_front p q l false true h k = refl
insert_front p q l false false h k = let e = le_path_total p q h in cc

insert_path_comm :
    (p q : FilePath) (l : List FilePath)
    → insert_path p (insert_path q l) ≡ insert_path q (insert_path p l)
unfolding insert_path
insert_path_comm p q [] = ground (arith, insert_front p q [] (le_path p q) (le_path q p) refl refl)
insert_path_comm p q (r ∷ l) = elim (Bool-cases (le_path p r)) [
  | inl e ↦ elim (Bool-cases (le_path q r)) [
    | inl f ↦ ground (arith, insert_front p q (r ∷ l) (le_path p q) (le_path q p) refl refl)
    | inr f ↦ ground (arith, le_path_trans q p r)
  ]
  | inr e ↦ elim (Bool-cases (le_path q r)) [
    | inl f ↦ ground (arith, le_path_trans p q r)
    | inr f ↦ ground (arith, insert_path_comm p q l)
  ]
]

-- The paths of a list, inserted one by one.
unfoldable pub insert_all : List FilePath → List FilePath → List FilePath
insert_all [] l = l
insert_all (p ∷ ps) l = insert_path p (insert_all ps l)

pub sort-insert_all : (ps : List FilePath) → sort ps ≡ insert_all ps []
unfolding sort insert_all
sort-insert_all [] = refl
sort-insert_all (p ∷ ps) = ap (insert_path p) (sort-insert_all ps)

pub insert_all-append :
    (ps qs l : List FilePath) → insert_all (ps ++ qs) l ≡ insert_all ps (insert_all qs l)
unfolding insert_all
insert_all-append [] qs l = refl
insert_all-append (p ∷ ps) qs l = ap (insert_path p) (insert_all-append ps qs l)

insert_all-insert_path :
    (ps : List FilePath) (q : FilePath) (l : List FilePath)
    → insert_all ps (insert_path q l) ≡ insert_path q (insert_all ps l)
unfolding insert_all
insert_all-insert_path [] q l = refl
insert_all-insert_path (p ∷ ps) q l =
    ap (insert_path p) (insert_all-insert_path ps q l) ∙ insert_path_comm p q (insert_all ps l)

pub insert_all_comm :
    (ps qs l : List FilePath) → insert_all ps (insert_all qs l) ≡ insert_all qs (insert_all ps l)
unfolding insert_all
insert_all_comm [] qs l = refl
insert_all_comm (p ∷ ps) qs l =
    ap (insert_path p) (insert_all_comm ps qs l)
    ∙ sym (insert_all-insert_path qs p (insert_all ps l))
