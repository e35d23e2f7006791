-- ===== src/Store/Shapes.antt =====
-- session.go: the callbacks of a validation keep the shape of a session.
use cledyu.Base.{
  ℕ, zero, suc, String, ◌≡◌, refl, ap, ◌∙◌, Bool, true, false, List, [], ◌∷◌, Option, none, some,
  modify, map, get_elem?, if◌then◌else◌,
}
use cledyu.Progress.{
  StepState, SessionSteps, ValidationResult, Applied, to_validating, to_result, unlock, index_of,
  mark_step_validating, move_on, open_next, apply_passed, apply_at, apply_validation_result,
}
use cledyu.Store.{to_step, to_store_progress}
use cledyu.Store.Calls.{changes, validating_change, applying_change}
use cledyu.Store.Restart.{Shape, HasShape, Suits}

abbrev ids_of : List StepState → List ℕ
ids_of l = map (λ x. x.step_id) (map to_step l)

ids-modify :
    (l : List StepState) (i : ℕ) (f : StepState → StepState)
    → ((s : StepState) → (f s).step_id ≡ s.step_id)
    → ids_of (modify l i f) ≡ ids_of l
ids-modify [] i f h = refl
ids-modify (s ∷ l) zero f h = ap (λ k. k ∷ ids_of l) (h s)
ids-modify (s ∷ l) (suc i) f h = ap (λ r. s.step_id ∷ r) (ids-modify l i f h)

-- The record is of the same lab and user, and has the same step IDs.
abbrev SameShape : SessionSteps → SessionSteps → Type 0
SameShape t s = (t.lab_id ≡ s.lab_id) × (t.user_id ≡ s.user_id) × (ids_of t.steps ≡ ids_of s.steps)

SameShape-HasShape :
    (sh : Shape) (t s : SessionSteps)
    → SameShape t s
    → HasShape sh (to_store_progress s)
    → HasShape sh (to_store_progress t)
unfolding to_store_progress
SameShape-HasShape sh t s (a, b, c) (lab, user, ids, up) = (a ∙ lab, b ∙ user, c ∙ ids, up)

moved-SameShape : (i : ℕ) (o : Option StepState) (s : SessionSteps) → SameShape (move_on i o s) s
unfolding move_on
moved-SameShape i none s = (refl, refl, refl)
moved-SameShape i (some next) s = (refl, refl, ids-modify s.steps (suc i) unlock (λ x. refl))

either-SameShape :
    (b : Bool) (x y : Applied) (s : SessionSteps)
    → SameShape x.steps s
    → SameShape y.steps s
    → SameShape (if b then x else y).steps s
either-SameShape true x y s h k = h
either-SameShape false x y s h k = k

applied-SameShape :
    (r : ValidationResult) (o : Option ℕ) (s : SessionSteps) → SameShape (apply_at r o s).steps s
unfolding apply_at apply_passed open_next
applied-SameShape r none s = (refl, refl, refl)
applied-SameShape r (some i) s =
    let s' : SessionSteps = record s { steps = modify s.steps i (to_result r) } in
    let ids : ids_of s'.steps ≡ ids_of s.steps = ids-modify s.steps i (to_result r) (λ x. refl) in
    let (a, b, c) = moved-SameShape i (get_elem? s'.steps (suc i)) s' in
    either-SameShape r.passed _ _ s (a, b, c ∙ ids) (refl, refl, ids)

pub validating-Suits :
    (shape : String → Shape) (id : String) (i : ℕ) → Suits shape (changes id (validating_change i))
unfolding mark_step_validating
validating-Suits shape id i ss h =
    SameShape-HasShape (shape id) (mark_step_validating i ss) ss
      (refl, refl, ids-modify ss.steps i to_validating (λ x. refl)) h

pub applying-Suits :
    (shape : String → Shape) (id : String) (r : ValidationResult)
    → Suits shape (changes id (applying_change r))
unfolding apply_validation_result
applying-Suits shape id r ss h =
    SameShape-HasShape (shape id) (apply_validation_result r ss).steps ss
      (applied-SameShape r (index_of r.step_id ss.steps) ss) h
