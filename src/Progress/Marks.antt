-- ===== src/Progress/Marks.antt =====
-- session.go: the marks that the operations leave on the list of steps.
use cledyu.Base.{
  ℕ, zero, suc, ◌≡◌, refl, Bool, true, false, ◌&&◌, List, [], ◌∷◌, Option, none, some, arith,
  get_elem?, modify, Option-cases, Bool-cases, inl, inr, if◌then◌else◌,
}
use cledyu.Progress.{
  StepStatus, StepState, SessionSteps, ValidationResult, is_pending, index_of, blocked, step_at,
  find_validatable, mark_step_passed, mark_passed_in, apply_validation_result, apply_at,
  apply_passed, to_passed, to_result, unlock, passed,
}
use cledyu.Progress.Links.{chain, opened, steps-open_next}

-- A request that passes the gate is for an opened step.
pub opened-blocked :
    (id : ℕ) (l : List StepState) (i : ℕ)
    → chain passed l ≡ true
    → index_of id l ≡ some i
    → blocked i l ≡ false
    → opened l i ≡ true
unfolding index_of blocked
opened-blocked id [] i c e b = cc
opened-blocked id (s ∷ l) zero c e b = ground arith
opened-blocked id (s ∷ l) (suc i) c e b = ground (arith, opened-blocked id l i)

pub index_of-modify :
    (f : StepState → StepState)
    → ((s : StepState) → (f s).step_id ≡ s.step_id)
    → (id : ℕ) (l : List StepState) (i : ℕ) → index_of id (modify l i f) ≡ index_of id l
unfolding index_of
index_of-modify f h id [] i = refl
index_of-modify f h id (s ∷ l) zero = ground (arith, h s)
index_of-modify f h id (s ∷ l) (suc i) = ground (arith, index_of-modify f h id l i)

pub opened-modify :
    (f : StepState → StepState)
    → ((s : StepState) → is_pending s.status ≡ false → is_pending (f s).status ≡ false)
    → (l : List StepState) (i j : ℕ) → opened l j ≡ true
    → opened (modify l i f) j ≡ true
opened-modify f h [] i j o = o
opened-modify f h (s ∷ l) zero zero o = ground (arith, h s)
opened-modify f h (s ∷ l) zero (suc j) o = o
opened-modify f h (s ∷ l) (suc i) zero o = o
opened-modify f h (s ∷ l) (suc i) (suc j) o = opened-modify f h l i j o

-- Is the step of an ID, if the lab has it, opened?
abbrev pub opened_at : List StepState → Option ℕ → Bool
opened_at l none = true
opened_at l (some i) = opened l i

-- Every requested step is opened.
abbrev pub all_opened : List StepState → List ℕ → Bool
all_opened l [] = true
all_opened l (id ∷ ids) = opened_at l (index_of id l) && all_opened l ids

module _ (f : StepState → StepState) (same_id : (s : StepState) → (f s).step_id ≡ s.step_id)
    (stays : (s : StepState) → is_pending s.status ≡ false → is_pending (f s).status ≡ false) where
  pub opened_at-modify :
      (l : List StepState) (i : ℕ) (o : Option ℕ)
      → opened_at l o ≡ true
      → opened_at (modify l i f) o ≡ true
  opened_at-modify l i none h = refl
  opened_at-modify l i (some j) h = opened-modify f stays l i j h

  pub all_opened-modify :
      (l : List StepState) (i : ℕ) (ids : List ℕ)
      → all_opened l ids ≡ true
      → all_opened (modify l i f) ids ≡ true
  all_opened-modify l i [] h = refl
  all_opened-modify l i (id ∷ ids) h = ground (
    arith,
    index_of-modify f same_id id l i,
    opened_at-modify l i (index_of id l),
    all_opened-modify l i ids,
  )

pub chain-same :
    (f : StepState → StepState)
    → ((s : StepState) → (f s).status ≡ s.status)
    → (a : StepStatus) (l : List StepState) (i : ℕ) → chain a (modify l i f) ≡ chain a l
chain-same f h a [] i = refl
chain-same f h a (s ∷ l) zero = rw (h s) refl
chain-same f h a (s ∷ l) (suc i) = ground (arith, chain-same f h s.status l i)

-- What passing the gate says.
pub step_at-index :
    (id i : ℕ) (ss : SessionSteps)
    → find_validatable id ss ≡ step_at i
    → (index_of id ss.steps ≡ some i) × (blocked i ss.steps ≡ false)
unfolding find_validatable
step_at-index id i ss h = ground arith

pub get-opened :
    (l : List StepState) (i : ℕ) → opened l i ≡ true → (s : StepState) × (get_elem? l i ≡ some s)
get-opened [] i o = cc
get-opened (s ∷ l) zero o = (s, refl)
get-opened (s ∷ l) (suc i) o = get-opened l i o

pub steps-mark_get :
    (i : ℕ) (ss : SessionSteps) (s : StepState)
    → get_elem? ss.steps i ≡ some s
    → (mark_step_passed i ss).0.steps ≡ modify (modify ss.steps i to_passed) (suc i) unlock
unfolding mark_step_passed
steps-mark_get i ss s e =
    rw (e, mark_passed_in) (steps-open_next i (record ss { steps = modify ss.steps i to_passed }))

pub steps-mark_step_passed :
    (i : ℕ) (ss : SessionSteps)
    → opened ss.steps i ≡ true
    → (mark_step_passed i ss).0.steps ≡ modify (modify ss.steps i to_passed) (suc i) unlock
steps-mark_step_passed i ss o = let (s, e) = get-opened ss.steps i o in steps-mark_get i ss s e

-- The steps after a result, for the index that its step ID has.
abbrev pub after_result : ValidationResult → Option ℕ → List StepState → List StepState
after_result r none l = l
after_result r (some i) l =
    let l' = modify l i (to_result r) in if r.passed then modify l' (suc i) unlock else l'

pub steps-apply :
    (r : ValidationResult) (ss : SessionSteps)
    → (apply_validation_result r ss).steps.steps
      ≡ after_result r (index_of r.step_id ss.steps) ss.steps
unfolding apply_validation_result apply_passed
steps-apply r ss = elim (Option-cases (index_of r.step_id ss.steps)) [
  | inl e ↦ rw (e, apply_at)
  | inr (i, e) ↦
      rw (e, apply_at)
        (elim (Bool-cases r.passed) [ inl p ↦ rw p (steps-open_next i _) | inr q ↦ rw q refl ])
]

pub result-stays :
    (r : ValidationResult) (x : StepState)
    → is_pending x.status ≡ false
    → is_pending (to_result r x).status ≡ false
result-stays r x p = ground arith
