-- ===== src/Text/Separated.antt =====
-- Texts in parts: what trims to itself, and the parts of a text with separators.
use kernelkit.Common.{
  ℕ, ◌≡◌, ◌≢◌, refl, ◌∙◌, ap, true, false, List, [], ◌∷◌, ◌++◌, none, some, arith,
}
use kernelkit.Text.{Text, is_whitespace, trim_start, trim_end, trim, split, split_once, keep}
use kernelkit.Text.Printed.{Every}

pub Every-map : {P Q : ℕ → Type 0} (s : Text) → ((c : ℕ) → P c → Q c) → Every P s → Every Q s
Every-map [] f h = tt
Every-map (c ∷ s) f (h, h') = (f c h, Every-map s f h')

pub Every-append : (P : ℕ → Type 0) (s t : Text) → Every P s → Every P t → Every P (s ++ t)
Every-append P [] t h k = k
Every-append P (c ∷ s) t (h, h') k = (h, Every-append P s t h' k)

abbrev pub IsInk : ℕ → Type 0
IsInk c = is_whitespace c ≡ false

abbrev pub IsBlank : ℕ → Type 0
IsBlank c = is_whitespace c ≡ true

pub trim_start-Blank :
    (blank s : Text) → Every IsBlank blank → trim_start (blank ++ s) ≡ trim_start s
unfolding trim_start
trim_start-Blank [] s h = refl
trim_start-Blank (c ∷ blank) s (h, h') = ground (arith, trim_start-Blank blank s h')

trim_start-nil : (s : Text) → Every IsBlank s → trim_start s ≡ []
unfolding trim_start
trim_start-nil [] h = refl
trim_start-nil (c ∷ s) (h, h') = ground (arith, trim_start-nil s h')

pub trim_start-Ink : (c : ℕ) (s : Text) → IsInk c → trim_start (c ∷ s) ≡ c ∷ s
unfolding trim_start
trim_start-Ink c s h = ground arith

trim_end-Blank : (s : Text) → Every IsBlank s → trim_end s ≡ []
unfolding trim_end
trim_end-Blank [] h = refl
trim_end-Blank (c ∷ s) (h, h') = ground (arith, trim_end-Blank s h')

keep-Ink : (c : ℕ) (s : Text) → IsInk c → keep c s ≡ c ∷ s
keep-Ink c [] h = ground arith
keep-Ink c (d ∷ s) h = refl

-- Blanks behind a text of ink alone are trimmed, and nothing else.
pub trim_end-Ink :
    (s blank : Text) → Every IsInk s → Every IsBlank blank → trim_end (s ++ blank) ≡ s
unfolding trim_end
trim_end-Ink [] blank h k = trim_end-Blank blank k
trim_end-Ink (c ∷ s) blank (h, h') k = ap (keep c) (trim_end-Ink s blank h' k) ∙ keep-Ink c s h

pub trim-Ink : (s blank : Text) → Every IsInk s → Every IsBlank blank → trim (s ++ blank) ≡ s
unfolding trim_start trim_end
trim-Ink [] blank h k = ap trim_end (trim_start-nil blank k)
trim-Ink (c ∷ s) blank (h, h') k =
    ap trim_end (trim_start-Ink c (s ++ blank) h) ∙ trim_end-Ink (c ∷ s) blank (h, h') k

module _ (sep : ℕ) where
  abbrev pub Lacks : Text → Type 0
  Lacks = Every (λ c. c ≢ sep)

  pub split_once-Lacks : (s : Text) → Lacks s → split_once sep s ≡ none
  unfolding split_once
  split_once-Lacks [] h = refl
  split_once-Lacks (c ∷ s) (h, h') = ground (arith, split_once-Lacks s h')

  pub split_once-first :
      (before after : Text)
      → Lacks before
      → split_once sep (before ++ sep ∷ after) ≡ some (before, after)
  unfolding split_once
  split_once-first [] after h = ground arith
  split_once-first (c ∷ before) after (h, h') = ground (arith, split_once-first before after h')

  split-Lacks : (s : Text) → Lacks s → split sep s ≡ s ∷ []
  unfolding split
  split-Lacks [] h = refl
  split-Lacks (c ∷ s) (h, h') = ground (arith, split-Lacks s h')

  split-first : (s rest : Text) → Lacks s → split sep (s ++ sep ∷ rest) ≡ s ∷ split sep rest
  unfolding split
  split-first [] rest h = ground arith
  split-first (c ∷ s) rest (h, h') = ground (arith, split-first s rest h')

  -- A part, and others behind it with a separator in front of each.
  abbrev pub joined : Text → List Text → Text
  joined s [] = s
  joined s (t ∷ ts) = s ++ sep ∷ joined t ts

  abbrev pub AllLack : List Text → Type 0
  AllLack [] = Unit {0}
  AllLack (s ∷ ts) = Lacks s × AllLack ts

  -- A text is split into the parts that it was joined from.
  pub split-joined :
      (s : Text) (ts : List Text) → Lacks s → AllLack ts → split sep (joined s ts) ≡ s ∷ ts
  split-joined s [] h k = split-Lacks s h
  split-joined s (t ∷ ts) h (h', k) =
      split-first s (joined t ts) h ∙ ap (λ l. s ∷ l) (split-joined t ts h' k)
