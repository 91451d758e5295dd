-- ===== src/Memory/Loop.antt =====
-- src/memory.rs: the loop over the lines of `/proc/meminfo` against the entries of the file.
use kernelkit.Common.{
  ℕ, ◌≡◌, refl, sym, ap, ◌∙◌, Bool, true, false, List, [], ◌∷◌, none, inl, inr, arith,
  if◌then◌else◌, Option-cases,
}
use mathlib.Core.List.{map}
use kernelkit.Text.{Text, starts_with, u64_max, checked}
use kernelkit.Memory.Meminfo.{Counters, no_counters, read_lines, complete}
use kernelkit.Memory.Status.{status_of, parse_meminfo}
use kernelkit.Memory.Printed.{
  Field, total, available, free, buffers, cached, Entry, known, other, shown, printed_file,
  parse_kib_value-shown, AllLines, lines-printed_file,
}
use kernelkit.Memory.Entries.{
  get, put, look_up, counters_of, IsOther, Distinct, Open, or_else, or_else-none, merge,
  counters_of-ap, Open-start, Open-put, merge-known,
}

-- Whether the loop ends behind a line.
abbrev stops : Field → Counters → Bool
stops total c = complete c
stops available c = complete c
stops g c = false

read-known :
    (g : Field) (pad kib : ℕ) (rest : List Text) (c : Counters)
    → read_lines (shown (known g pad kib) ∷ rest) c
      ≡ (let c' = put g (checked u64_max kib) c in if stops g c' then c' else read_lines rest c')
unfolding read_lines starts_with
read-known total pad kib rest c = rw (parse_kib_value-shown total pad kib) refl
read-known available pad kib rest c = rw (parse_kib_value-shown available pad kib) refl
read-known free pad kib rest c = rw (parse_kib_value-shown free pad kib) refl
read-known buffers pad kib rest c = rw (parse_kib_value-shown buffers pad kib) refl
read-known cached pad kib rest c = rw (parse_kib_value-shown cached pad kib) refl

read-other :
    (line : Text) (rest : List Text) (c : Counters)
    → IsOther line
    → read_lines (line ∷ rest) c ≡ read_lines rest c
unfolding read_lines
read-other line rest c h = ground (arith, h total, h available, h free, h buffers, h cached)

status_of-complete :
    (c : Counters) (es : List Entry) → complete c ≡ true → status_of c ≡ status_of (merge c es)
unfolding status_of
status_of-complete c es h = elim (Option-cases c.mem_total_kib) [
  | inl e ↦ absurd (ground arith)
  | inr (t, e) ↦ elim (Option-cases c.mem_available_kib) [
    | inl e' ↦ absurd (ground arith)
    | inr (a, e') ↦ ground arith
  ]
]

ended :
    (g : Field) (c : Counters) (es : List Entry) (more : Counters)
    → status_of more ≡ status_of (merge c es)
    → status_of (if stops g c then c else more) ≡ status_of (merge c es)
ended total c es more h = ground (arith, status_of-complete c es)
ended available c es more h = ground (arith, status_of-complete c es)
ended free c es more h = h
ended buffers c es more h = h
ended cached c es more h = h

read_lines-shown :
    (es : List Entry) (c : Counters)
    → Open c es
    → Distinct es
    → status_of (read_lines (map shown es) c) ≡ status_of (merge c es)
unfolding read_lines
read_lines-shown [] c unread h =
    ap status_of
      (counters_of-ap (λ f. get f c) (λ f. or_else (get f c) none) (λ f. or_else-none (get f c)))
read_lines-shown (known g pad kib ∷ es) c unread (lacking, h) =
    let c' = put g (checked u64_max kib) c in
    let ih = read_lines-shown es c' (Open-put g pad kib es c lacking unread) h in
    ap status_of (read-known g pad kib (map shown es) c)
    ∙ ended g c' es (read_lines (map shown es) c') ih
    ∙ ap status_of (sym (merge-known g pad kib es c lacking unread))
read_lines-shown (other line ∷ es) c unread (h, h') =
    ap status_of (read-other line (map shown es) c h) ∙ read_lines-shown es c unread h'

-- From a file in which no field stands twice, in any order and among other lines, which start with no
-- field's name, parsing gives the status, or the error, of the numbers that the file gives for the five
-- fields, where they are `u64` values, though the loop may end early.
pub parse_meminfo-printed_file :
    (es : List Entry)
    → AllLines es
    → Distinct es
    → parse_meminfo (printed_file es) ≡ status_of (counters_of (λ f. look_up f es))
unfolding parse_meminfo
parse_meminfo-printed_file es h k =
    ap (λ l. status_of (read_lines l no_counters)) (lines-printed_file es h)
    ∙ read_lines-shown es no_counters (Open-start es) k
