-- ===== src/Affinity/Printed.antt =====
-- src/affinity.rs: an interrupt's mask as the kernel prints it, against `parse_irq_affinity`.
use kernelkit.Common.{
  ℕ, zero, suc, ◌*◌, ◌/◌, ◌%◌, ◌^◌, ◌≤◌, ◌<◌, ◌≡◌, ◌≢◌, refl, sym, ap, ◌∙◌, List, [], ◌∷◌, ◌++◌,
  append-nil, none, some, inl, inr, arith, replicate, length, get_or,
}
use mathlib.Core.List.{reverse, reverse_aux, map}
use kernelkit.Errors.{ok}
use kernelkit.Text.{Text, trim, split, strip_prefix, u64_max, checked, is_whitespace}
use kernelkit.Text.Printed.{printed, IsDigit, Every, printed-IsDigit, from_str_radix-padded}
use kernelkit.Text.Separated.{
  IsInk, trim-Ink, Every-map, Every-append, AllLack, joined, split-joined,
}
use kernelkit.Affinity.IrqMask.{parse_irq_affinity, parse_chunk, has_bit}
use kernelkit.Affinity.Masks.{masks_of}
use kernelkit.Affinity.Listed.{contains, parse_irq_affinity-contains}

-- A group of 32 bits, in hexadecimal behind `pad` zeros.
pub record Group : Type 0 where
  pub pad : ℕ
  pub mask : ℕ

abbrev pub shown : Group → Text
shown g = replicate g.pad b'0' ++ printed 16 g.mask

-- The groups, the most significant first, and the line feed behind them.
abbrev pub mask_text : Group → List Group → Text
mask_text g gs = joined b',' (shown g) (map shown gs) ++ 10 ∷ []

abbrev masks : List Group → List ℕ
masks = map (λ g. g.mask)

abbrev pub AllMasks : List Group → Type 0
AllMasks [] = Unit {0}
AllMasks (g ∷ gs) = (g.mask < 2 ^ 32) × AllMasks gs

zeros-IsDigit :
    (pad : ℕ) (s : Text) → Every (IsDigit 16) s → Every (IsDigit 16) (replicate pad b'0' ++ s)
zeros-IsDigit zero s h = h
zeros-IsDigit (suc pad) s h = (inl (omega arith, omega arith, omega arith), zeros-IsDigit pad s h)

shown-IsDigit : (g : Group) → Every (IsDigit 16) (shown g)
shown-IsDigit g =
    let (c, s, e, h) = printed-IsDigit 16 g.mask (omega arith) in
    zeros-IsDigit g.pad (printed 16 g.mask) (rw e h)

digit-Ink : (c : ℕ) → IsDigit 16 c → IsInk c
unfolding is_whitespace
digit-Ink c (inl h) = ground arith
digit-Ink c (inr h) = ground arith

digit-ne-comma : (c : ℕ) → IsDigit 16 c → c ≢ b','
digit-ne-comma c (inl h) = λ e. omega arith
digit-ne-comma c (inr h) = λ e. omega arith

shown-Ink : (g : Group) → Every IsInk (shown g)
shown-Ink g = Every-map (shown g) digit-Ink (shown-IsDigit g)

digit-ne : (x : ℕ) → b'f' < x → (c : ℕ) → IsDigit 16 c → c ≢ x
digit-ne x h c (inl k) = λ e. omega arith
digit-ne x h c (inr k) = λ e. omega arith

digit-ne-capital : (c : ℕ) → IsDigit 16 c → c ≢ b'X'
digit-ne-capital c (inl k) = λ e. omega arith
digit-ne-capital c (inr k) = λ e. omega arith

-- Digits have no prefix with an `x`.
strip_prefix-digits :
    (x : ℕ) (s : Text)
    → ((c : ℕ) → IsDigit 16 c → c ≢ x)
    → Every (IsDigit 16) s
    → strip_prefix (b'0' ∷ x ∷ []) s ≡ none
unfolding strip_prefix
strip_prefix-digits x [] ne h = refl
strip_prefix-digits x (c ∷ []) ne h = ground arith
strip_prefix-digits x (c ∷ d ∷ s) ne (h, (h', h'')) = ground (arith, ne d h')

parse_chunk-shown : (g : Group) → g.mask < 2 ^ 32 → parse_chunk (shown g) ≡ ok g.mask
unfolding parse_chunk
parse_chunk-shown g below =
    let clean = sym (ap trim (append-nil (shown g))) ∙ trim-Ink (shown g) [] (shown-Ink g) tt in
    let lower =
      strip_prefix-digits b'x' (shown g) (digit-ne b'x' (omega arith)) (shown-IsDigit g) in
    let upper = strip_prefix-digits b'X' (shown g) digit-ne-capital (shown-IsDigit g) in
    let number = from_str_radix-padded 16 g.mask (omega arith) u64_max (omega arith) g.pad in
    let fits : checked u64_max g.mask ≡ some g.mask = ground arith in
    rw clean (rw lower (rw upper (rw number (rw fits refl))))

masks_of-reversed :
    (gs : List Group) (chunks : List Text) (found : List ℕ)
    → AllMasks gs
    → masks_of chunks ≡ ok found
    → masks_of (reverse_aux (map shown gs) chunks) ≡ ok (reverse_aux (masks gs) found)
masks_of-reversed [] chunks found h e = e
masks_of-reversed (g ∷ gs) chunks found (h, h') e =
    masks_of-reversed gs (shown g ∷ chunks) (g.mask ∷ found) h'
      (rw (parse_chunk-shown g h) (rw e refl))

joined-Ink : (g : Group) (gs : List Group) → Every IsInk (joined b',' (shown g) (map shown gs))
unfolding is_whitespace
joined-Ink g [] = shown-Ink g
joined-Ink g (g' ∷ gs) = Every-append IsInk (shown g) _ (shown-Ink g) (refl, joined-Ink g' gs)

shown-AllLack : (gs : List Group) → AllLack b',' (map shown gs)
shown-AllLack [] = tt
shown-AllLack (g ∷ gs) = (Every-map (shown g) digit-ne-comma (shown-IsDigit g), shown-AllLack gs)

masks_of-mask_text :
    (g : Group) (gs : List Group)
    → AllMasks (g ∷ gs)
    → masks_of (reverse (split b',' (trim (mask_text g gs)))) ≡ ok (reverse (masks (g ∷ gs)))
masks_of-mask_text g gs h =
    let line =
      trim-Ink (joined b',' (shown g) (map shown gs)) (10 ∷ []) (joined-Ink g gs)
        (unfold is_whitespace in (refl, tt)) in
    let lacks = shown-AllLack (g ∷ gs) in
    ap (λ t. masks_of (reverse (split b',' t))) line
    ∙ ap (λ l. masks_of (reverse l)) (split-joined b',' (shown g) (map shown gs) lacks.0 lacks.1)
    ∙ masks_of-reversed (g ∷ gs) [] [] h refl

-- From a mask that the kernel prints, groups of 32 bits in hexadecimal with any zeros in front, the
-- list of cores is read; a core is in it exactly if its bit is set: bit `core % 32` of the group
-- number `core / 32`, counted from the last.
pub parse_irq_affinity-mask_text :
    (g : Group) (gs : List Group) (core : ℕ)
    → AllMasks (g ∷ gs)
    → length (reverse (masks (g ∷ gs))) * 32 ≤ 2 ^ 32
    → (cores : List ℕ) × (parse_irq_affinity (mask_text g gs) ≡ ok cores)
      × (contains core cores
          ≡ has_bit (get_or (reverse (masks (g ∷ gs))) (core / 32) 0) (core % 32))
parse_irq_affinity-mask_text g gs core h fits =
    parse_irq_affinity-contains (mask_text g gs) (reverse (masks (g ∷ gs))) core
      (masks_of-mask_text g gs h) fits
