-- ===== src/Memory/Counted.antt =====
-- src/memory.rs: what the counters of `/proc/meminfo` say of the memory.
use kernelkit.Common.{ℕ, ◌+◌, ◌*◌, ◌≤◌, ◌≡◌, ◌↔◌, ◌⊎◌, inl, inr, Option-cases, none, some, arith}
use kernelkit.Errors.{ok}
use kernelkit.Text.{u64_max}
use kernelkit.Memory.Meminfo.{Counters}
use kernelkit.Memory.Status.{MemoryStatus, or_zero, kib_to_bytes, available_kib, status_of}

-- A counter of KiB in bytes is exact exactly where it fits in a `u64`; the bytes always fit, and they
-- grow with the counter.
pub kib_to_bytes_lem :
    (kib more : ℕ)
    → kib ≤ more
    → ((kib_to_bytes kib ≡ kib * 1024) ↔ (kib * 1024 ≤ u64_max))
      × (kib_to_bytes kib ≤ u64_max)
      × (kib_to_bytes kib ≤ kib_to_bytes more)
unfolding kib_to_bytes
kib_to_bytes_lem kib more h = ((λ e. omega arith, λ e. omega arith), omega arith, omega arith)

-- The KiB that count as available: the kernel's own estimate, or else what is free, in buffers and
-- cached, where the free memory is known and the sum fits in a `u64`.
abbrev pub Available : Counters → ℕ → Type 0
Available c kib =
    (c.mem_available_kib ≡ some kib)
    ⊎ ((c.mem_available_kib ≡ none)
        × (free : ℕ) × (c.mem_free_kib ≡ some free)
        × (kib ≡ free + or_zero c.buffers_kib + or_zero c.cached_kib)
        × (kib ≤ u64_max))

available_kib-Available :
    (c : Counters) (kib : ℕ) → (available_kib c c.mem_available_kib ≡ some kib) ↔ Available c kib
available_kib-Available c kib = elim (Option-cases c.mem_available_kib) [
  | inr (n, e) ↦ (λ h. inl (grind arith), λ a. elim a [ inl h ↦ grind arith | inr h ↦ grind arith ])
  | inl e ↦ elim (Option-cases c.mem_free_kib) [
    | inl f ↦ (
      λ h. absurd (grind arith),
      λ a. elim a [ inl h ↦ grind arith | inr (_, free, h, _, _) ↦ grind arith ],
    )
    | inr (free, f) ↦ (
      λ h. inr (e, free, f, grind arith, grind arith),
      λ a. elim a [ inl h ↦ grind arith | inr (_, free', h, sum, fits) ↦ grind arith ],
    )
  ]
]

-- A status is given exactly where the total is known and some memory counts as available; both are
-- in bytes.
pub status_of_iff :
    (c : Counters) (status : MemoryStatus)
    → (status_of c ≡ ok status) ↔ (
        (total kib : ℕ) × (c.mem_total_kib ≡ some total)
        × Available c kib
        × (status.total_bytes ≡ kib_to_bytes total)
        × (status.available_bytes ≡ kib_to_bytes kib))
unfolding status_of
status_of_iff c status = (
  λ h. elim (Option-cases c.mem_total_kib) [
    | inl e ↦ absurd (grind arith)
    | inr (total, e) ↦ elim (Option-cases (available_kib c c.mem_available_kib)) [
      | inl a ↦ absurd (grind arith)
      | inr (kib, a) ↦
          (total, kib, e, (available_kib-Available c kib).0 a, grind arith, grind arith)
    ]
  ],
  λ (total, kib, e, available, t, a).
      let found = (available_kib-Available c kib).1 available in grind arith,
)
