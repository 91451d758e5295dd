-- ===== src/Numa/Threads/Invariant.antt =====
-- src/numa.rs: what holds of the cell, the lock and the open libraries in every reachable state.
use kernelkit.Common.{
  ℕ, ◌+◌, ◌<◌, ◌≡◌, ◌≢◌, refl, sym, ap, Option, none, some, ℕ_discrete, arith, update, update_self,
  update_other,
}
use kernelkit.Machine.{Os}
use kernelkit.Numa.Threads.{
  Pc, Shared, Move, found, missing, acquire, found_locked, missing_locked, load, fail, set,
  set_late, get, get_missing, release, System, Step, pick, Reach, here, later,
}
use kernelkit.Numa.Threads.Facts.{
  Fact, handles_in, pending, pending_in, Inside, Held, Move-others, Move-own,
}

module _ (os : Os) (threads : ℕ) where
  pub record Inv (m : Shared) (pc : ℕ → Pc) : Type 0 where
    pub facts : (i : ℕ) → Fact os m.cell m.holder i (pc i)
    pub held : Held threads m.holder pc
    pub counted : m.live ≡ handles_in m.cell + pending_in m.holder pc

  module _ (pc : ℕ → Pc) (i : ℕ) where
    not_holder :
        (h : Option ℕ) {p : Pc} → Held threads h pc → pc i ≡ p → (Inside p → ⊥) → h ≢ some i
    not_holder none k e outside = λ q. cc
    not_holder (some j) k e outside =
        λ q. let same : j ≡ i = ground arith in outside (rw (← e) (rw (← same) k.1))

    Held-other :
        (h : Option ℕ) (p' : Pc) → Held threads h pc → h ≢ some i → Held threads h (update pc i p')
    Held-other none p' k ne = tt
    Held-other (some j) p' k ne =
        (k.0, rw (update_other pc i j p' (λ e. ne (ap (λ (n : ℕ). some n) (sym e)))) k.1)

    Held-self :
        (h : Option ℕ) (p' : Pc)
        → h ≡ some i
        → i < threads
        → Inside p'
        → Held threads h (update pc i p')
    Held-self h p' e lt inside = rw e (lt, rw (update_self pc i p') inside)

    pending-other :
        (h : Option ℕ) (p' : Pc) → h ≢ some i → pending_in h (update pc i p') ≡ pending_in h pc
    pending-other none p' ne = refl
    pending-other (some j) p' ne =
        ap pending (update_other pc i j p' (λ e. ne (ap (λ (n : ℕ). some n) (sym e))))

    pending_self :
        (h : Option ℕ) (p' : Pc) → h ≡ some i → pending_in h (update pc i p') ≡ pending p'
    pending_self h p' e = rw e (ap pending (update_self pc i p'))

    pending-here : (h : Option ℕ) {p : Pc} → h ≡ some i → pc i ≡ p → pending_in h pc ≡ pending p
    pending-here h e e' = rw e (ap pending e')

    Move-Held :
        {m m' : Shared} {p p' : Pc}
        → Move os i m p m' p'
        → i < threads
        → pc i ≡ p
        → Fact os m.cell m.holder i p
        → Held threads m.holder pc
        → Held threads m'.holder (update pc i p')
    Move-Held {m} {p'} (found e) lt e' f k =
        Held-other m.holder p' k (not_holder m.holder k e' (λ x. x))
    Move-Held {m} {p'} (missing e) lt e' f k =
        Held-other m.holder p' k (not_holder m.holder k e' (λ x. x))
    Move-Held {p'} (acquire e) lt e' f k = Held-self (some i) p' refl lt tt
    Move-Held {m} {p'} (found_locked e) lt e' f k = Held-self m.holder p' f lt tt
    Move-Held {m} {p'} (missing_locked e) lt e' f k = Held-self m.holder p' f lt tt
    Move-Held {m} {p'} (load s e) lt e' f k = Held-self m.holder p' f.0 lt tt
    Move-Held {m} {p'} (fail s e) lt e' f k = Held-self m.holder p' f.0 lt tt
    Move-Held {m} {p'} (set e) lt e' f k = Held-self m.holder p' f.0 lt tt
    Move-Held {m} {p'} (set_late e) lt e' f k = Held-self m.holder p' f.0 lt tt
    Move-Held {m} {p'} (get e) lt e' f k = Held-self m.holder p' f.0 lt tt
    Move-Held {m} {p'} (get_missing e) lt e' f k = Held-self m.holder p' f.0 lt tt
    Move-Held release lt e' f k = tt

    -- The steps under the lock, by what is pending before and behind.
    Move-counted :
        {m m' : Shared} {p p' : Pc}
        → Move os i m p m' p'
        → pc i ≡ p
        → Fact os m.cell m.holder i p
        → Held threads m.holder pc
        → m.live ≡ handles_in m.cell + pending_in m.holder pc
        → m'.live ≡ handles_in m'.cell + pending_in m'.holder (update pc i p')
    Move-counted {m} {p'} (found e) e' f k c =
        omega (arith, c, pending-other m.holder p' (not_holder m.holder k e' (λ x. x)))
    Move-counted {m} {p'} (missing e) e' f k c =
        omega (arith, c, pending-other m.holder p' (not_holder m.holder k e' (λ x. x)))
    Move-counted {p'} (acquire e) e' f k c =
        omega (arith, c, ap (λ (h : Option ℕ). pending_in h pc) e, pending_self (some i) p' refl)
    Move-counted {m} {p'} (found_locked e) e' f k c =
        omega (arith, c, pending-here m.holder f e', pending_self m.holder p' f)
    Move-counted {m} {p'} (missing_locked e) e' f k c =
        omega (arith, c, pending-here m.holder f e', pending_self m.holder p' f)
    Move-counted {m} {p'} (load s e) e' f k c =
        omega (arith, c, pending-here m.holder f.0 e', pending_self m.holder p' f.0)
    Move-counted {m} {p'} (fail s e) e' f k c =
        omega (arith, c, pending-here m.holder f.0 e', pending_self m.holder p' f.0)
    Move-counted {m} {p'} (set e) e' f k c =
        omega
          (arith, c, pending-here m.holder f.0 e', pending_self m.holder p' f.0, ap handles_in e)
    Move-counted (set_late e) e' f k c = cc
    Move-counted {m} {p'} (get e) e' f k c =
        omega (arith, c, pending-here m.holder f.0 e', pending_self m.holder p' f.0)
    Move-counted {m} {p'} (get_missing e) e' f k c =
        omega (arith, c, pending-here m.holder f.0 e', pending_self m.holder p' f.0)
    Move-counted {m} release e' f k c = omega (arith, c, pending-here m.holder f.0 e')

    Move-facts :
        {m m' : Shared} {p p' : Pc}
        → Move os i m p m' p'
        → Fact os m.cell m.holder i p
        → ((j : ℕ) → Fact os m.cell m.holder j (pc j))
        → (j : ℕ) → Fact os m'.cell m'.holder j (update pc i p' j)
    Move-facts {m'} {p'} mv f all j = elim (ℕ_discrete i j) [
      | yes e ↦ rw (← e) (rw (update_self pc i p') (Move-own os mv f))
      | no ne ↦ rw (update_other pc i j p' ne) (Move-others os mv f j (pc j) ne (all j))
    ]

    Move-Inv :
        {m m' : Shared} {p p' : Pc}
        → Move os i m p m' p'
        → i < threads
        → pc i ≡ p
        → Fact os m.cell m.holder i p
        → Inv m pc
        → Inv m' (update pc i p')
    Move-Inv mv lt e f inv = record {
      facts = Move-facts mv f inv.facts;
      held = Move-Held mv lt e f inv.held;
      counted = Move-counted mv e f inv.held inv.counted;
    }

  pub Step-Inv : {s t : System} → Step os threads s t → Inv s.shared s.pc → Inv t.shared t.pc
  Step-Inv {s} (pick i lt mv) inv = Move-Inv s.pc i mv lt refl (inv.facts i) inv

  pub Reach-Inv : {k : ℕ} {s : System} → Reach os threads k s → Inv s.shared s.pc
  Reach-Inv here = record { facts = λ _. tt; held = tt; counted = refl }
  Reach-Inv (later r st) = Step-Inv st (Reach-Inv r)
