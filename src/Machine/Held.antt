-- ===== src/Machine/Held.antt =====
-- What a run of calls leaves in the crate's hands: the mappings not yet unmapped and the
-- descriptors not yet closed, latest first.
use kernelkit.Common.{
  ℕ, pos, Bool, true, false, ◌&&◌, List, [], ◌∷◌, ◌++◌, some, ◌≡◌, refl, ap, arith, ◌==◌,
  if◌then◌else◌, Bool-cases, inl, inr,
}
use kernelkit.Errors.{Result, ok, err, panicked, done}
use kernelkit.Machine.{Event, Calls, State}

pub data Resource : Type 0 where
  mapping : (ptr len : ℕ) → Resource
  descriptor : (fd : ℕ) → Resource

abbrev pub same : Resource → Resource → Bool
same (mapping p n) (mapping q m) = p == q && n == m
same (mapping p n) (descriptor fd) = false
same (descriptor fd) (mapping p n) = false
same (descriptor fd) (descriptor fd') = fd == fd'

-- The latest of a resource goes.
unfoldable pub give_back : Resource → List Resource → List Resource
give_back r [] = []
give_back r (x ∷ xs) = if same r x then xs else x ∷ give_back r xs

abbrev pub effect : Event → List Resource → List Resource
effect (Event.mmap_anon len hugetlb (some ptr)) rs = mapping ptr len ∷ rs
effect (Event.munmap ptr len) rs = give_back (mapping ptr len) rs
effect (Event.open_file path (done fd)) rs = descriptor fd ∷ rs
effect (Event.map_file fd populate (done m)) rs = mapping m.ptr m.len ∷ rs
effect (Event.close_file fd) rs = give_back (descriptor fd) rs
effect (Event.perf_event_open kind config size (pos fd)) rs = descriptor fd ∷ rs
effect e rs = rs

abbrev pub held : Calls → List Resource
held [] = []
held (e ∷ es) = effect e (held es)

-- What a result owns: nothing where the call failed.
abbrev pub owned : {A : Type 0} → (A → List Resource) → Result A → List Resource
owned f (ok a) = f a
owned f (err e) = []
owned f panicked = []

-- A run from `s` to `(r, s')` has acquired exactly what its result owns.
abbrev pub Balanced : {A : Type 0} → (A → List Resource) → State → Result A × State → Type 0
Balanced f s p = held p.1.calls ≡ owned f p.0 ++ held s.calls

abbrev pub nothing : {A : Type 0} → A → List Resource
nothing a = []

pub give_back_first : (r : Resource) (rs : List Resource) → give_back r (r ∷ rs) ≡ rs
unfolding give_back
give_back_first (mapping p n) rs = ground arith
give_back_first (descriptor fd) rs = ground arith

pub give_back_descriptor_second :
    (ptr len fd : ℕ) (rs : List Resource)
    → give_back (descriptor fd) (mapping ptr len ∷ descriptor fd ∷ rs) ≡ mapping ptr len ∷ rs
unfolding give_back
give_back_descriptor_second ptr len fd rs = ground arith

pub same_sound : (a b : Resource) → same a b ≡ true → a ≡ b
same_sound (mapping p n) (mapping q m) h = ground arith
same_sound (mapping p n) (descriptor fd) h = cc
same_sound (descriptor fd) (mapping p n) h = cc
same_sound (descriptor fd) (descriptor fd') h = ground arith

give_back_step :
    (a b : Resource) (x : Resource) (xs : List Resource)
    → give_back a (give_back b xs) ≡ give_back b (give_back a xs)
    → give_back a (give_back b (x ∷ xs)) ≡ give_back b (give_back a (x ∷ xs))
unfolding give_back
give_back_step a b x xs ih = elim (Bool-cases (same a x)) [
  | inl e ↦ elim (Bool-cases (same b x)) [
    | inl e' ↦ cc (same_sound a x e, same_sound b x e')
    | inr e' ↦ rw e (rw e' (rw e refl))
  ]
  | inr e ↦ elim (Bool-cases (same b x)) [
    | inl e' ↦ rw e (rw e' refl)
    | inr e' ↦ rw e (rw e' (rw e (ap (λ (l : List Resource). x ∷ l) ih)))
  ]
]

-- The order in which two resources go does not matter.
pub give_back_comm :
    (a b : Resource) (xs : List Resource)
    → give_back a (give_back b xs) ≡ give_back b (give_back a xs)
give_back_comm a b [] = unfold give_back in refl
give_back_comm a b (x ∷ xs) = give_back_step a b x xs (give_back_comm a b xs)
