-- ===== src/Numa/Online.antt =====
-- src/numa.rs: the list of online nodes as the kernel prints it, against `sysfs_node_count`.
use kernelkit.Common.{
  ℕ, ◌+◌, ◌≤◌, ◌≡◌, ◌≢◌, refl, sym, ap, ◌∙◌, min, max, List, [], ◌∷◌, ◌++◌, Option, none, some, inl,
  inr, arith, append-nil,
}
use mathlib.Core.List.{foldl, map}
use kernelkit.Errors.{done}
use kernelkit.Text.{Text, trim, split, u64_max, is_whitespace}
use kernelkit.Text.Printed.{decimal, IsDigit, Every, decimal-IsDigit, parse_u64-decimal}
use kernelkit.Text.Separated.{
  IsInk, trim-Ink, Every-map, Every-append, split_once-Lacks, split_once-first, AllLack, joined,
  split-joined,
}
use kernelkit.Lengths.{usize_max}
use kernelkit.Machine.{Os, State}
use kernelkit.Numa.Sysfs.{range_end, max_index, parse_online, sysfs_node_count}

-- One item of the list: a node, or all from one to another.
pub data NodeRange : Type 0 where
  single : (node : ℕ) → NodeRange
  span : (first last : ℕ) → NodeRange

abbrev pub last_of : NodeRange → ℕ
last_of (single node) = node
last_of (span first last) = last

abbrev pub shown : NodeRange → Text
shown (single node) = decimal node
shown (span first last) = decimal first ++ b'-' ∷ decimal last

-- The list, and the line feed behind it.
abbrev pub online : NodeRange → List NodeRange → Text
online r rs = joined b',' (shown r) (map shown rs) ++ 10 ∷ []

abbrev pub highest : List NodeRange → ℕ
highest [] = 0
highest (r ∷ rs) = max (last_of r) (highest rs)

-- A digit is no blank, no comma and no dash.
IsPart : ℕ → Type 0
IsPart c = IsInk c × (c ≢ b',')

digit-IsPart : (c : ℕ) → IsDigit 10 c → IsPart c
unfolding IsPart is_whitespace
digit-IsPart c (inl h) = (ground arith, ground arith)
digit-IsPart c (inr h) = absurd (omega arith)

digit-ne-dash : (c : ℕ) → IsDigit 10 c → c ≢ b'-'
digit-ne-dash c (inl h) = λ e. omega arith
digit-ne-dash c (inr h) = absurd (omega arith)

shown-IsPart : (r : NodeRange) → Every IsPart (shown r)
unfolding IsPart is_whitespace
shown-IsPart (single node) = Every-map (decimal node) digit-IsPart (decimal-IsDigit node)
shown-IsPart (span first last) =
    Every-append IsPart (decimal first) (b'-' ∷ decimal last)
      (Every-map (decimal first) digit-IsPart (decimal-IsDigit first))
      ((refl, λ e. omega (arith, e)), Every-map (decimal last) digit-IsPart (decimal-IsDigit last))

range_end-shown : (r : NodeRange) → last_of r ≤ u64_max → range_end (shown r) ≡ some (last_of r)
unfolding range_end
range_end-shown (single node) le =
    let lacks = Every-map (decimal node) digit-ne-dash (decimal-IsDigit node) in
    grind (arith, split_once-Lacks b'-' (decimal node) lacks, parse_u64-decimal node)
range_end-shown (span first last) le =
    let lacks = Every-map (decimal first) digit-ne-dash (decimal-IsDigit first) in
    grind
      (arith, split_once-first b'-' (decimal first) (decimal last) lacks, parse_u64-decimal last)

shown-Ink : (r : NodeRange) → Every IsInk (shown r)
unfolding IsPart
shown-Ink r = Every-map (shown r) (λ c h. h.0) (shown-IsPart r)

trim-shown : (r : NodeRange) → trim (shown r) ≡ shown r
trim-shown r = sym (ap trim (append-nil (shown r))) ∙ trim-Ink (shown r) [] (shown-Ink r) tt

joined-Ink :
    (r : NodeRange) (rs : List NodeRange) → Every IsInk (joined b',' (shown r) (map shown rs))
unfolding is_whitespace
joined-Ink r [] = shown-Ink r
joined-Ink r (r' ∷ rs) = Every-append IsInk (shown r) _ (shown-Ink r) (refl, joined-Ink r' rs)

shown-AllLack : (rs : List NodeRange) → AllLack b',' (map shown rs)
unfolding IsPart
shown-AllLack [] = tt
shown-AllLack (r ∷ rs) = (Every-map (shown r) (λ c h. h.1) (shown-IsPart r), shown-AllLack rs)

step : Option ℕ → Text → Option ℕ
step acc range = max_index acc (range_end (trim range))

step-shown :
    (acc : Option ℕ) (r : NodeRange) (rs : List NodeRange)
    → last_of r ≤ u64_max
    → foldl step acc (map shown (r ∷ rs))
      ≡ foldl step (max_index acc (some (last_of r))) (map shown rs)
unfolding step
step-shown acc r rs le =
    ap (λ t. foldl step (max_index acc (range_end t)) (map shown rs)) (trim-shown r)
    ∙ ap (λ i. foldl step (max_index acc i) (map shown rs)) (range_end-shown r le)

foldl-shown :
    (m : ℕ) (rs : List NodeRange)
    → highest rs ≤ u64_max
    → foldl step (some m) (map shown rs) ≡ some (max m (highest rs))
unfolding step
foldl-shown m [] le = ground arith
foldl-shown m (r ∷ rs) le =
    step-shown (some m) r rs (omega arith)
    ∙ foldl-shown (max m (last_of r)) rs (omega arith)
    ∙ ground arith

-- From the list of online nodes that the kernel prints, single numbers and ranges in any order, with a
-- line feed behind, the largest node is read, where it is a `u64`.
pub parse_online-online :
    (r : NodeRange) (rs : List NodeRange)
    → highest (r ∷ rs) ≤ u64_max
    → parse_online (online r rs) ≡ some (highest (r ∷ rs))
unfolding parse_online step is_whitespace
parse_online-online r rs le =
    let text = joined b',' (shown r) (map shown rs) in
    let line = trim-Ink text (10 ∷ []) (joined-Ink r rs) (refl, tt) in
    let lacks = shown-AllLack (r ∷ rs) in
    let parts = split-joined b',' (shown r) (map shown rs) lacks.0 lacks.1 in
    ap (λ t. foldl step none (split b',' t)) line
    ∙ ap (foldl step none) parts
    ∙ step-shown none r rs (omega arith)
    ∙ foldl-shown (last_of r) rs (omega arith)

-- Where the kernel's list of online nodes can be read, and its largest node is a `u64`, the nodes are
-- counted as that node and those below it, saturating.
pub sysfs_node_count-online :
    (os : Os) (r : NodeRange) (rs : List NodeRange) (s : State)
    → os.read_text_answer s.calls "/sys/devices/system/node/online" ≡ done (online r rs)
    → highest (r ∷ rs) ≤ u64_max
    → (sysfs_node_count os s).0 ≡ some (min (highest (r ∷ rs) + 1) usize_max)
unfolding sysfs_node_count
sysfs_node_count-online os r rs s h le = rw h (rw (parse_online-online r rs le) refl)
