-- ===== src/Progress/Finish.antt =====
-- session.go: when a lab is complete, and that it can be completed.
use cledyu.Base.{
  ℕ, zero, suc, ◌≡◌, refl, Bool, true, ◌&&◌, List, [], ◌∷◌, none, some, arith, get_elem?, modify,
  all, Bool-cases, inl, inr, if◌then◌else◌,
}
use cledyu.Progress.{
  StepState, SessionSteps, ValidationResult, passed, step_passed, all_passed_of, index_of, Event,
  step_completed, lab_completed, validation_failed, plain_event, all_passed,
  apply_validation_result, apply_at, apply_passed, open_next, to_result, unlock,
}
use cledyu.Progress.Links.{steps-open_next}

-- Are all steps but the one at the index passed?
unfoldable pub others_passed : ℕ → List StepState → Bool
others_passed i [] = true
others_passed zero (s ∷ l) = all step_passed l
others_passed (suc i) (s ∷ l) = step_passed s && others_passed i l

all-unlock : (l : List StepState) (i : ℕ) → all step_passed (modify l i unlock) ≡ all step_passed l
all-unlock [] i = refl
all-unlock (s ∷ l) zero = ground arith
all-unlock (s ∷ l) (suc i) = rw (all-unlock l i) refl

-- Once a step is passed, all are when the others were.
all_passed-modify :
    (f : StepState → StepState)
    → ((s : StepState) → (f s).status ≡ passed)
    → (l : List StepState) (i : ℕ) (s : StepState) → get_elem? l i ≡ some s
    → all_passed_of (modify (modify l i f) (suc i) unlock) ≡ others_passed i l
unfolding all_passed_of others_passed
all_passed-modify f h [] i s e = cc
all_passed-modify f h (x ∷ l) zero s e = ground (arith, h x, all-unlock l 0)
all_passed-modify f h (x ∷ y ∷ l) (suc i) s e = ground (arith, all_passed-modify f h (y ∷ l) i s)
all_passed-modify f h (x ∷ []) (suc i) s e = cc

pub index_of-get :
    (id : ℕ) (l : List StepState) (i : ℕ)
    → index_of id l ≡ some i
    → (s : StepState) × (get_elem? l i ≡ some s)
unfolding index_of
index_of-get id [] i e = cc
index_of-get id (s ∷ l) zero e = (s, refl)
index_of-get id (s ∷ l) (suc i) e = index_of-get id l i (ground arith)

open_next-owner :
    (i : ℕ) (ss : SessionSteps)
    → ((open_next i ss).user_id ≡ ss.user_id) × ((open_next i ss).lab_id ≡ ss.lab_id)
unfolding open_next
open_next-owner i ss = ground arith

-- The events of a result, told by the result and the other steps alone.
abbrev pub events_of : ValidationResult → Bool → SessionSteps → List Event
events_of r others ss =
    if r.passed
    then plain_event step_completed ss r.session_id r.step_id
      ∷ (if others then plain_event lab_completed ss r.session_id 0 ∷ [] else [])
    else plain_event validation_failed ss r.session_id r.step_id ∷ []

apply_passed-others :
    (r : ValidationResult) (ss ss' : SessionSteps) (others : Bool)
    → all_passed ss' ≡ others
    → ss'.user_id ≡ ss.user_id
    → ss'.lab_id ≡ ss.lab_id
    → ((apply_passed r ss').completed ≡ (if others then some (ss.user_id, ss.lab_id) else none))
      × ((apply_passed r ss').events
          ≡ plain_event step_completed ss r.session_id r.step_id
            ∷ (if others then plain_event lab_completed ss r.session_id 0 ∷ [] else []))
unfolding apply_passed
apply_passed-others r ss ss' others h u v = rw (h, u, v) (refl, refl)

all_passed-open :
    (r : ValidationResult) (ss : SessionSteps) (i : ℕ) (s : StepState)
    → get_elem? ss.steps i ≡ some s
    → r.passed ≡ true
    → all_passed (open_next i (record ss { steps = modify ss.steps i (to_result r) }))
      ≡ others_passed i ss.steps
unfolding all_passed
all_passed-open r ss i s e p =
    rw (steps-open_next i (record ss { steps = modify ss.steps i (to_result r) }))
      (all_passed-modify (to_result r) (λ x. ground arith) ss.steps i s e)

apply_at-others :
    (r : ValidationResult) (ss : SessionSteps) (i : ℕ) (s : StepState)
    → get_elem? ss.steps i ≡ some s
    → ((apply_at r (some i) ss).completed
        ≡ (if r.passed && others_passed i ss.steps then some (ss.user_id, ss.lab_id) else none))
      × ((apply_at r (some i) ss).events ≡ events_of r (others_passed i ss.steps) ss)
unfolding apply_at
apply_at-others r ss i s e =
    let ss' = record ss { steps = modify ss.steps i (to_result r) } in
    elim (Bool-cases r.passed) [
      | inl p ↦
          let (u, v) = open_next-owner i ss' in
          ground (
            arith,
            p,
            apply_passed-others r ss (open_next i ss') (others_passed i ss.steps)
                (all_passed-open r ss i s e p) u v,
          )
      | inr q ↦ ground (arith, q)
    ]

-- A result for a step that the lab has completes the lab, and is followed by a completion event,
-- exactly when it passes and all the other steps are passed by then; the events are those of
-- `events_of`. So a passing result that is delivered again to a completed lab reports it complete
-- again.
pub apply-completed :
    (r : ValidationResult) (ss : SessionSteps) (i : ℕ)
    → index_of r.step_id ss.steps ≡ some i
    → ((apply_validation_result r ss).completed
        ≡ (if r.passed && others_passed i ss.steps then some (ss.user_id, ss.lab_id) else none))
      × ((apply_validation_result r ss).events ≡ events_of r (others_passed i ss.steps) ss)
unfolding apply_validation_result
apply-completed r ss i e =
    let (s, g) = index_of-get r.step_id ss.steps i e in rw e (apply_at-others r ss i s g)
