-- ===== src/Mmap/Advice.antt =====
-- src/mmap.rs: the advice on a map of a file, against what the system answers.
use kernelkit.Common.{◌∷◌, ◌≡◌, ◌≢◌, ◌↔◌, ◌⊎◌, inl, inr, String, pos, arith, ℕ_discrete}
use kernelkit.Errors.{Error, ok, err, system}
use kernelkit.Machine.{Advice, Mapping, Event, Calls, Os, State}
use kernelkit.Mmap.File.{MmapAdvice, advise}

-- The flag that an advice passes on, and the name of the call in its error.
pub data Passes : MmapAdvice → Advice → String → Type 0 where
  passes_sequential : Passes MmapAdvice.sequential Advice.sequential "madvise(SEQUENTIAL)"
  passes_random : Passes MmapAdvice.random Advice.random "madvise(RANDOM)"
  passes_will_need : Passes MmapAdvice.will_need Advice.will_need "madvise(WILLNEED)"

module _ (os : Os) (m : Mapping) where
  -- There is nothing to advise on, or the system takes the advice.
  abbrev pub IsAdvised : MmapAdvice → Calls → Type 0
  IsAdvised advice calls =
      (m.len ≡ 0)
      ⊎ ((flag : Advice) × (name : String) × Passes advice flag name
          × (os.madvise_answer calls m.ptr m.len flag ≡ pos 0))

  -- The system refuses the advice; the error bears the name of the call, and what the system shows
  -- behind it.
  abbrev pub IsRefused : MmapAdvice → Calls → Error → Type 0
  IsRefused advice calls e =
      (m.len ≢ 0)
      × ((flag : Advice) × (name : String) × Passes advice flag name
          × (os.madvise_answer calls m.ptr m.len flag ≢ pos 0)
          × (e ≡ system name (os.last_error (Event.madvise m.ptr m.len flag ∷ calls))))

  module _ (s : State) where
    IsRefused-of_err :
        (advice : MmapAdvice) (e : Error)
        → (advise os m advice s).0 ≡ err e
        → IsRefused advice s.calls e
    unfolding advise
    IsRefused-of_err MmapAdvice.sequential e h =
        ((λ z. grind arith), (_, _, passes_sequential, (λ z. grind arith), grind arith))
    IsRefused-of_err MmapAdvice.random e h =
        ((λ z. grind arith), (_, _, passes_random, (λ z. grind arith), grind arith))
    IsRefused-of_err MmapAdvice.will_need e h =
        ((λ z. grind arith), (_, _, passes_will_need, (λ z. grind arith), grind arith))

    err-of_IsRefused :
        (advice : MmapAdvice) (e : Error)
        → IsRefused advice s.calls e
        → (advise os m advice s).0 ≡ err e
    unfolding advise
    err-of_IsRefused advice e (long, (flag, name, passes_sequential, refused, same)) = grind arith
    err-of_IsRefused advice e (long, (flag, name, passes_random, refused, same)) = grind arith
    err-of_IsRefused advice e (long, (flag, name, passes_will_need, refused, same)) = grind arith

    pub advise-err :
        (advice : MmapAdvice) (e : Error)
        → ((advise os m advice s).0 ≡ err e) ↔ IsRefused advice s.calls e
    advise-err advice e = (IsRefused-of_err advice e, err-of_IsRefused advice e)

    IsAdvised-of_ok :
        (advice : MmapAdvice) → (advise os m advice s).0 ≡ ok tt → IsAdvised advice s.calls
    unfolding advise
    IsAdvised-of_ok advice h = elim (ℕ_discrete m.len 0) [
      | yes empty ↦ inl empty
      | no long ↦ inr (granted advice long h)
    ]
      where
        granted :
            (a : MmapAdvice)
            → m.len ≢ 0
            → (advise os m a s).0 ≡ ok tt
            → (flag : Advice) × (name : String) × Passes a flag name
              × (os.madvise_answer s.calls m.ptr m.len flag ≡ pos 0)
        granted MmapAdvice.sequential long h = (_, _, passes_sequential, grind arith)
        granted MmapAdvice.random long h = (_, _, passes_random, grind arith)
        granted MmapAdvice.will_need long h = (_, _, passes_will_need, grind arith)

    ok-of_IsAdvised :
        (advice : MmapAdvice) → IsAdvised advice s.calls → (advise os m advice s).0 ≡ ok tt
    unfolding advise
    ok-of_IsAdvised advice (inl empty) = grind arith
    ok-of_IsAdvised advice (inr (flag, name, passes_sequential, granted)) = grind arith
    ok-of_IsAdvised advice (inr (flag, name, passes_random, granted)) = grind arith
    ok-of_IsAdvised advice (inr (flag, name, passes_will_need, granted)) = grind arith

    pub advise_iff :
        (advice : MmapAdvice) → ((advise os m advice s).0 ≡ ok tt) ↔ IsAdvised advice s.calls
    advise_iff advice = (IsAdvised-of_ok advice, ok-of_IsAdvised advice)
