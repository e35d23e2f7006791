-- ===== src/Progress/Race.antt =====
-- session.go: `ValidateStep` publishes the request first and marks the step as validating behind
-- that, so the result can be applied in between.
use cledyu.Base.{
  ℕ, zero, suc, ◌<◌, ◌≡◌, refl, Bool, true, false, List, [], ◌∷◌, Option, none, some, arith,
  get_elem?, modify, if◌then◌else◌,
}
use cledyu.Progress.{
  StepState, StepStatus, SessionSteps, ValidationResult, validating, order_blocked, index_of,
  blocked, find_validatable, precheck_at, mark_step_validating, to_validating, to_result, unlock,
  apply_validation_result,
}
use cledyu.Progress.Marks.{steps-apply}
use cledyu.Progress.Finish.{index_of-get}

abbrev pub status_at : List StepState → ℕ → Option StepStatus
status_at l i = elim (get_elem? l i) [ none ↦ none | some s ↦ some s.status ]

status-validating :
    (l : List StepState) (i : ℕ) (s : StepState)
    → get_elem? l i ≡ some s
    → status_at (modify l i to_validating) i ≡ some validating
status-validating [] i s e = cc
status-validating (x ∷ l) zero s e = refl
status-validating (x ∷ l) (suc i) s e = status-validating l i s e

blocked-validating :
    (l : List StepState) (i j : ℕ) (s : StepState)
    → get_elem? l i ≡ some s
    → i < j
    → blocked j (modify l i to_validating) ≡ true
unfolding blocked
blocked-validating l i zero s e h = ground (arith, h)
blocked-validating [] i (suc j) s e h = cc
blocked-validating (x ∷ l) zero (suc j) s e h = refl
blocked-validating (x ∷ l) (suc i) (suc j) s e h = ground (arith, blocked-validating l i j s e)

get-modify :
    (f : StepState → StepState) (l : List StepState) (i j : ℕ) (s : StepState)
    → get_elem? l i ≡ some s
    → (s' : StepState) × (get_elem? (modify l j f) i ≡ some s')
get-modify f [] i j s e = cc
get-modify f (x ∷ l) zero zero s e = (f x, refl)
get-modify f (x ∷ l) zero (suc j) s e = (x, refl)
get-modify f (x ∷ l) (suc i) zero s e = (s, e)
get-modify f (x ∷ l) (suc i) (suc j) s e = get-modify f l i j s e

unlocked-get :
    (b : Bool) (l : List StepState) (i : ℕ) (s : StepState)
    → get_elem? l i ≡ some s
    → (s' : StepState) × (get_elem? (if b then modify l (suc i) unlock else l) i ≡ some s')
unlocked-get true l i s e = get-modify unlock l i (suc i) s e
unlocked-get false l i s e = (s, e)

-- When a result for a step is applied before the step is marked as validating, the mark leaves the
-- step validating, whatever the result said, and every later step is turned down from there on.
pub overtaken-blocked :
    (r : ValidationResult) (ss : SessionSteps) (i : ℕ)
    → index_of r.step_id ss.steps ≡ some i
    → (status_at (mark_step_validating i (apply_validation_result r ss).steps).steps i
        ≡ some validating)
      × ((id j : ℕ)
          → index_of id (mark_step_validating i (apply_validation_result r ss).steps).steps ≡ some j
          → i < j
          → find_validatable id (mark_step_validating i (apply_validation_result r ss).steps)
            ≡ order_blocked)
unfolding mark_step_validating find_validatable
overtaken-blocked r ss i e =
    let l = (apply_validation_result r ss).steps.steps in
    let (s, g) = still in
    (
      status-validating l i s g,
      λ id j k h. rw (k, precheck_at, blocked-validating l i j s g h) refl,
    )
  where
    results : (s : StepState) × (get_elem? (modify ss.steps i (to_result r)) i ≡ some s)
    results =
        let (s, g) = index_of-get r.step_id ss.steps i e in
        get-modify (to_result r) ss.steps i i s g

    still : (s : StepState) × (get_elem? (apply_validation_result r ss).steps.steps i ≡ some s)
    still =
        rw (steps-apply r ss, e)
          (unlocked-get r.passed (modify ss.steps i (to_result r)) i results.0 results.1)
