-- ===== src/Client/Ledger.antt =====
-- How often a resource is held, which does not depend on the order.
use kernelkit.Common.{
  ℕ, suc, ◌+◌, ◌-◌, ◌≡◌, refl, true, List, [], ◌∷◌, ◌++◌, arith, if◌then◌else◌, Bool-cases, inl,
  inr,
}
use kernelkit.Machine.{Os, State}
use kernelkit.Machine.Syscalls as Sys
use kernelkit.Machine.Held.{Resource, mapping, descriptor, held, give_back, same, same_sound}
use kernelkit.Corpus.Mapping.{MmapRegion, drop_regions}
use kernelkit.Corpus.Ownership.{pushed}
use kernelkit.Client.{of_regions}

abbrev pub count : Resource → List Resource → ℕ
count x [] = 0
count x (r ∷ rs) = if same x r then suc (count x rs) else count x rs

pub count-append :
    (x : Resource) (rs qs : List Resource) → count x (rs ++ qs) ≡ count x rs + count x qs
count-append x [] qs = omega arith
count-append x (r ∷ rs) qs = ground (arith, count-append x rs qs)

same_self : (r : Resource) → same r r ≡ true
same_self (mapping p n) = ground arith
same_self (descriptor fd) = ground arith

-- The latest of a resource goes, if there is one.
pub count-give_back :
    (x r : Resource) (rs : List Resource) → count x (give_back r rs) ≡ count x rs - count x (r ∷ [])
unfolding give_back
count-give_back x r [] = ground arith
count-give_back x r (q ∷ rs) = elim (Bool-cases (same r q)) [
  | inl e ↦ let e' = same_sound r q e in rw e' (ground (arith, same_self q))
  | inr e ↦ elim (Bool-cases (same x q)) [
    | inr f ↦ ground (arith, count-give_back x r rs)
    | inl f ↦ elim (Bool-cases (same x r)) [
      | inr g ↦ ground (arith, count-give_back x r rs)
      | inl g ↦ absurd (cc (same_sound x r g))
    ]
  ]
]

pub count-pushed :
    (x : Resource) (rs : List MmapRegion) (h : List Resource)
    → count x (pushed rs h) ≡ count x (of_regions rs) + count x h
count-pushed x [] h = omega arith
count-pushed x (r ∷ rs) h = ground (arith, count-pushed x rs (mapping r.mmap.ptr r.mmap.len ∷ h))

pub count-drop_regions :
    (os : Os) (x : Resource) (rs : List MmapRegion) (s : State)
    → count x (held (drop_regions os rs s).calls) ≡ count x (held s.calls) - count x (of_regions rs)
unfolding drop_regions
count-drop_regions os x [] s = omega arith
count-drop_regions os x (r ∷ rs) s =
    let rest = count-drop_regions os x rs (Sys.drop_mapping os r.mmap s) in
    ground (arith, rest, count-give_back x (mapping r.mmap.ptr r.mmap.len) (held s.calls))

pub none_held : (rs : List Resource) → ((x : Resource) → count x rs ≡ 0) → rs ≡ []
none_held [] h = refl
none_held (r ∷ rs) h = absurd (ground (arith, h r, same_self r))
