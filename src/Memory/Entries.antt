-- ===== src/Memory/Entries.antt =====
-- src/memory.rs: the entries of `/proc/meminfo`, and the counters that are read from them.
use kernelkit.Common.{
  ℕ, ◌≡◌, refl, sym, ◌⊎◌, Bool, true, false, List, [], ◌∷◌, ◌++◌, Option, none, some, inl, inr,
  arith, if◌then◌else◌, Bool-cases,
}
use mathlib.Core.Path.{subst}
use kernelkit.Text.{Text, starts_with, u64_max, checked}
use kernelkit.Memory.Meminfo.{Counters, no_counters}
use kernelkit.Memory.Printed.{
  Field, total, available, free, buffers, cached, name_of, Entry, known, other,
}

abbrev pub get : Field → Counters → Option ℕ
get total c = c.mem_total_kib
get available c = c.mem_available_kib
get free c = c.mem_free_kib
get buffers c = c.buffers_kib
get cached c = c.cached_kib

abbrev pub put : Field → Option ℕ → Counters → Counters
put total value c = record c { mem_total_kib = value }
put available value c = record c { mem_available_kib = value }
put free value c = record c { mem_free_kib = value }
put buffers value c = record c { buffers_kib = value }
put cached value c = record c { cached_kib = value }

abbrev pub same : Field → Field → Bool
same total total = true
same available available = true
same free free = true
same buffers buffers = true
same cached cached = true
same f g = false

-- What the file says of a field: the number of its first line, where it is a `u64`.
abbrev pub look_up : Field → List Entry → Option ℕ
look_up f [] = none
look_up f (known g pad kib ∷ es) = if same f g then checked u64_max kib else look_up f es
look_up f (other line ∷ es) = look_up f es

abbrev pub counters_of : (Field → Option ℕ) → Counters
counters_of value = record {
  mem_total_kib = value total;
  mem_available_kib = value available;
  mem_free_kib = value free;
  buffers_kib = value buffers;
  cached_kib = value cached;
}

-- No line of a field.
abbrev pub Lacking : Field → List Entry → Type 0
Lacking f [] = Unit {0}
Lacking f (known g pad kib ∷ es) = (same f g ≡ false) × Lacking f es
Lacking f (other line ∷ es) = Lacking f es

-- A line that no field's name stands in front of.
abbrev pub IsOther : Text → Type 0
IsOther line = (f : Field) → starts_with line (name_of f ++ b':' ∷ []) ≡ false

-- No field stands twice.
abbrev pub Distinct : List Entry → Type 0
Distinct [] = Unit {0}
Distinct (known f pad kib ∷ es) = Lacking f es × Distinct es
Distinct (other line ∷ es) = IsOther line × Distinct es

-- A field is not read yet, or comes no more.
abbrev pub Open : Counters → List Entry → Type 0
Open c es = (f : Field) → (get f c ≡ none) ⊎ Lacking f es

look_up-Lacking : (f : Field) (es : List Entry) → Lacking f es → look_up f es ≡ none
look_up-Lacking f [] h = refl
look_up-Lacking f (known g pad kib ∷ es) (h, h') = ground (arith, look_up-Lacking f es h')
look_up-Lacking f (other line ∷ es) h = look_up-Lacking f es h

abbrev pub or_else : Option ℕ → Option ℕ → Option ℕ
or_else none b = b
or_else (some a) b = some a

pub or_else-none : (a : Option ℕ) → a ≡ or_else a none
or_else-none none = refl
or_else-none (some n) = refl

-- The counters that are read, and those of the entries that follow.
abbrev pub merge : Counters → List Entry → Counters
merge c es = counters_of (λ f. or_else (get f c) (look_up f es))

pub counters_of-ap :
    (v w : Field → Option ℕ) → ((f : Field) → v f ≡ w f) → counters_of v ≡ counters_of w
counters_of-ap v w h = cc (h total, h available, h free, h buffers, h cached)

same_self : (f : Field) → same f f ≡ true
same_self total = refl
same_self available = refl
same_self free = refl
same_self buffers = refl
same_self cached = refl

get-put :
    (f g : Field) (value : Option ℕ) (c : Counters)
    → get f (put g value c) ≡ (if same f g then value else get f c)
get-put total total value c = refl
get-put available available value c = refl
get-put free free value c = refl
get-put buffers buffers value c = refl
get-put cached cached value c = refl
get-put f g value c = refl

same_sound : (f g : Field) → same f g ≡ true → f ≡ g
same_sound total total h = refl
same_sound available available h = refl
same_sound free free h = refl
same_sound buffers buffers h = refl
same_sound cached cached h = refl
same_sound f g h = cc

pub Open-start : (es : List Entry) → Open no_counters es
Open-start es total = inl refl
Open-start es available = inl refl
Open-start es free = inl refl
Open-start es buffers = inl refl
Open-start es cached = inl refl

module _ (g : Field) (pad kib : ℕ) (es : List Entry) (c : Counters) (lacking : Lacking g es) where
  abbrev value : Option ℕ
  value = checked u64_max kib

  Lacking-same : (f : Field) → same f g ≡ true → Lacking f es
  Lacking-same f e = subst (λ (h : Field). Lacking h es) (sym (same_sound f g e)) lacking

  module _ (unread : Open c (known g pad kib ∷ es)) where
    pub Open-put : Open (put g value c) es
    Open-put f = elim (Bool-cases (same f g)) [
      | inl e ↦ inr (Lacking-same f e)
      | inr e ↦ elim (unread f) [
        | inl h ↦ inl (ground (arith, get-put f g value c))
        | inr h ↦ inr h.1
      ]
    ]

    merge_field :
        (f : Field)
        → or_else (get f c) (look_up f (known g pad kib ∷ es))
          ≡ or_else (get f (put g value c)) (look_up f es)
    merge_field f = elim (Bool-cases (same f g)) [
      | inl e ↦ elim (unread f) [
        | inl h ↦ ground (arith, get-put f g value c, look_up-Lacking f es (Lacking-same f e))
        | inr h ↦ absurd (ground (arith, h.0))
      ]
      | inr e ↦ ground (arith, get-put f g value c)
    ]

    pub merge-known : merge c (known g pad kib ∷ es) ≡ merge (put g value c) es
    merge-known = counters_of-ap _ _ merge_field
