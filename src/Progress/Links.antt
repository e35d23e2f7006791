-- ===== src/Progress/Links.antt =====
-- session.go: how the statuses of neighbouring steps hang together, and that the operations keep it.
use cledyu.Base.{
  ℕ, zero, suc, ◌≡◌, refl, sym, ap, Bool, true, false, not, ◌&&◌, ◌||◌, List, [], ◌∷◌, map, none,
  arith, get_elem?, modify, Option-cases, inl, inr,
}
use cledyu.Progress.{
  StepStatus, pending, active, passed, StepState, SessionSteps, is_passed, is_pending, fresh_step,
  initial_steps, unlock, open_next, move_on,
}

-- After a passed step stands no pending one, and before an opened step no pending one.
abbrev pub link : StepStatus → StepStatus → Bool
link a b = (not (is_passed a) || not (is_pending b)) && (is_pending b || not (is_pending a))

abbrev pub chain : StepStatus → List StepState → Bool
chain a [] = true
chain a (s ∷ l) = link a s.status && chain s.status l

-- The opened steps come first, one more than the passed ones at their front at least: the first step
-- is open, and so is the step behind a passed one.
abbrev pub in_order : List StepState → Bool
in_order = chain passed

chain-fresh :
    (ids : List ℕ) (a : StepStatus)
    → is_passed a ≡ false
    → chain a (map (fresh_step pending) ids) ≡ true
chain-fresh [] a h = refl
chain-fresh (id ∷ ids) a h = ground (arith, chain-fresh ids pending)

pub initial-in_order : (ids : List ℕ) → in_order (initial_steps ids) ≡ true
initial-in_order [] = refl
initial-in_order (id ∷ ids) = chain-fresh ids active refl

-- Is the step at the index there, and opened?
abbrev pub opened : List StepState → ℕ → Bool
opened [] i = false
opened (s ∷ l) zero = not (is_pending s.status)
opened (s ∷ l) (suc i) = opened l i

-- A status that is neither pending nor passed fits in front of any chain.
chain-settled :
    (a b : StepStatus) (l : List StepState)
    → is_passed b ≡ false
    → is_pending b ≡ false
    → chain a l ≡ true
    → chain b l ≡ true
chain-settled a b [] p q h = refl
chain-settled a b (s ∷ l) p q h = ground arith

-- Writing such a status at an opened step keeps the chain.
pub chain-modify :
    (f : StepState → StepState)
    → ((s : StepState) → is_passed (f s).status ≡ false)
    → ((s : StepState) → is_pending (f s).status ≡ false)
    → (a : StepStatus) (l : List StepState) (i : ℕ) → opened l i ≡ true
    → chain a l ≡ true
    → chain a (modify l i f) ≡ true
chain-modify f np nq a [] i o h = h
chain-modify f np nq a (s ∷ l) zero o h =
    ground (arith, np s, nq s, chain-settled s.status (f s).status l (np s) (nq s))
chain-modify f np nq a (s ∷ l) (suc i) o h = ground (arith, chain-modify f np nq s.status l i)

chain-unlock :
    (a b : StepStatus) (l : List StepState)
    → is_passed b ≡ is_passed a
    → is_pending b ≡ false
    → chain a l ≡ true
    → chain b l ≡ true
chain-unlock a b [] p q h = refl
chain-unlock a b (s ∷ l) p q h = ground arith

-- So does passing an opened step and unlocking the next.
pub chain-pass :
    (f : StepState → StepState)
    → ((s : StepState) → (f s).status ≡ passed)
    → (a : StepStatus) (l : List StepState) (i : ℕ) → opened l i ≡ true
    → chain a l ≡ true
    → chain a (modify (modify l i f) (suc i) unlock) ≡ true
chain-pass f fp a [] i o h = h
chain-pass f fp a (s ∷ []) zero o h = ground (arith, fp s)
chain-pass f fp a (s ∷ b ∷ l) zero o h =
    ground (arith, fp s, chain-unlock b.status (unlock b).status l)
chain-pass f fp a (s ∷ l) (suc i) o h = ground (arith, chain-pass f fp s.status l i)

-- `open_next` on the steps: with no next step there is nothing to unlock.
modify_beyond : (l : List StepState) (i : ℕ) → get_elem? l i ≡ none → modify l i unlock ≡ l
modify_beyond [] i h = refl
modify_beyond (s ∷ l) zero h = ground arith
modify_beyond (s ∷ l) (suc i) h = ap (λ r. s ∷ r) (modify_beyond l i h)

pub steps-open_next :
    (i : ℕ) (ss : SessionSteps) → (open_next i ss).steps ≡ modify ss.steps (suc i) unlock
unfolding open_next
steps-open_next i ss = elim (Option-cases (get_elem? ss.steps (suc i))) [
  | inl e ↦ rw (e, move_on) (sym (modify_beyond ss.steps (suc i) e))
  | inr (s, e) ↦ rw (e, move_on)
]
