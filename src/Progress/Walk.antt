-- ===== src/Progress/Walk.antt =====
-- session.go: a lab can be completed, by passing its steps one after the other.
use mathlib.Core.List.{append_assoc, append-nil}
use cledyu.Base.{
  ℕ, suc, ◌≡◌, refl, ap, ◌∙◌, String, Bool, true, false, not, ◌&&◌, List, [], ◌∷◌, ◌++◌, map,
  Option, none, some, arith, modify, all, all-append, length, ◌==◌, modify-append,
}
use cledyu.Progress.{
  StepState, SessionSteps, step_at, pending, step_passed, all_passed, all_passed_of, initial,
  initial_steps, fresh_step, index_of, blocked, find_validatable, precheck_at, unlock, CheckOutcome,
  ValidationResult, to_validating, to_result, mark_step_validating, apply_validation_result,
}
use cledyu.Progress.Marks.{steps-apply}
use cledyu.Progress.Unlock.{mem}

-- What the engine answers to a request for a step that it passes.
abbrev pub passing : String → (ℕ → List CheckOutcome) → ℕ → ValidationResult
passing sid checks id = record { session_id = sid; step_id = id; passed = true; checks = checks id }

-- Validations of the given steps: each has to pass the gate, is marked, and its result is applied.
unfoldable pub walk : String → (ℕ → List CheckOutcome) → List ℕ → SessionSteps → Option SessionSteps
walk sid checks [] ss = some ss
walk sid checks (id ∷ ids) ss = elim (find_validatable id ss) [
  | step_at i ↦
      walk sid checks ids
        (apply_validation_result (passing sid checks id) (mark_step_validating i ss)).steps
  | _ ↦ none
]

abbrev pub ids_of : List StepState → List ℕ
ids_of l = map (λ s. s.step_id) l

abbrev pub distinct : List ℕ → Bool
distinct [] = true
distinct (id ∷ ids) = not (mem id ids) && distinct ids

-- No step of the first list has an ID of the second.
abbrev apart : List StepState → List ℕ → Bool
apart p [] = true
apart p (id ∷ ids) = not (mem id (ids_of p)) && apart p ids

index_of-append :
    (id : ℕ) (p : List StepState) (s : StepState) (q : List StepState)
    → mem id (ids_of p) ≡ false
    → s.step_id ≡ id
    → index_of id (p ++ s ∷ q) ≡ some (length p)
unfolding index_of
index_of-append id [] s q h e = ground arith
index_of-append id (x ∷ p) s q h e = ground (arith, index_of-append id p s q)

blocked-append :
    (p q : List StepState) → all step_passed p ≡ true → blocked (length p) (p ++ q) ≡ false
unfolding blocked
blocked-append [] q h = refl
blocked-append (x ∷ p) q h = ground (arith, blocked-append p q)

modify_next :
    (p : List StepState) (s : StepState) (q : List StepState) (f : StepState → StepState)
    → modify (p ++ s ∷ q) (suc (length p)) f ≡ p ++ s ∷ modify q 0 f
modify_next [] s q f = refl
modify_next (x ∷ p) s q f = ap (λ r. x ∷ r) (modify_next p s q f)

mem-append :
    (id : ℕ) (p : List StepState) (s : StepState)
    → mem id (ids_of p) ≡ false
    → (s.step_id == id) ≡ false
    → mem id (ids_of (p ++ s ∷ [])) ≡ false
mem-append id [] s h n = ground arith
mem-append id (x ∷ p) s h n = ground (arith, mem-append id p s)

apart-append :
    (p : List StepState) (s : StepState) (ids : List ℕ)
    → apart p ids ≡ true
    → mem s.step_id ids ≡ false
    → apart (p ++ s ∷ []) ids ≡ true
apart-append p s [] h n = refl
apart-append p s (id ∷ ids) h n = ground (arith, mem-append id p s, apart-append p s ids)

ids-unlock : (q : List StepState) → ids_of (modify q 0 unlock) ≡ ids_of q
ids-unlock [] = refl
ids-unlock (s ∷ q) = refl

gate-walk :
    (id : ℕ) (ss : SessionSteps) (p : List StepState) (s : StepState) (q : List StepState)
    → ss.steps ≡ p ++ s ∷ q
    → all step_passed p ≡ true
    → mem id (ids_of p) ≡ false
    → s.step_id ≡ id
    → find_validatable id ss ≡ step_at (length p)
unfolding find_validatable
gate-walk id ss p s q e a m h =
    rw (e, index_of-append id p s q m h, precheck_at, e, blocked-append p (s ∷ q) a) refl

-- the step behind the mark and the result
abbrev graded : ValidationResult → StepState → StepState
graded r s = to_result r (to_validating s)

mark-walk :
    (sid : String) (checks : ℕ → List CheckOutcome) (id : ℕ) (ss : SessionSteps)
    (p : List StepState) (s : StepState) (q : List StepState)
    → ss.steps ≡ p ++ s ∷ q
    → mem id (ids_of p) ≡ false
    → s.step_id ≡ id
    → (apply_validation_result
        (passing sid checks id)
        (mark_step_validating (length p) ss)).steps.steps
      ≡ (p ++ graded (passing sid checks id) s ∷ []) ++ modify q 0 unlock
unfolding mark_step_validating index_of
mark-walk sid checks id ss p s q e m h =
    let r : ValidationResult = passing sid checks id in
    steps-apply r (mark_step_validating (length p) ss)
    ∙ rw
        (
          mark_step_validating,
          e,
          modify-append p q s to_validating,
          index_of-append id p (to_validating s) q m h,
          modify-append p q (to_validating s) (to_result r),
          modify_next p (graded r s) q unlock,
          append_assoc,
        )
        refl

walk_step :
    (sid : String) (checks : ℕ → List CheckOutcome) (id i : ℕ) (ids : List ℕ) (ss : SessionSteps)
    → find_validatable id ss ≡ step_at i
    → walk sid checks (id ∷ ids) ss
      ≡ walk sid checks ids
          (apply_validation_result (passing sid checks id) (mark_step_validating i ss)).steps
unfolding walk
walk_step sid checks id i ids ss g = rw (walk, g) refl

abbrev nonempty : List StepState → Bool
nonempty [] = false
nonempty (s ∷ l) = true

nonempty-middle :
    (p : List StepState) (s : StepState) (q : List StepState) → nonempty ((p ++ s ∷ []) ++ q) ≡ true
nonempty-middle [] s q = refl
nonempty-middle (x ∷ p) s q = refl

all_passed-nonempty :
    (l : List StepState) → nonempty l ≡ true → all step_passed l ≡ true → all_passed_of l ≡ true
unfolding all_passed_of
all_passed-nonempty [] n a = n
all_passed-nonempty (s ∷ l) n a = a

-- What a walk ends in.
abbrev Ends : Option SessionSteps → Type 0
Ends o = (t : SessionSteps) × (o ≡ some t) × (all_passed_of t.steps ≡ true)

walk-rest :
    (sid : String) (checks : ℕ → List CheckOutcome) (ids : List ℕ) (p q : List StepState)
    (ss : SessionSteps)
    → ids_of q ≡ ids
    → ss.steps ≡ p ++ q
    → all step_passed p ≡ true
    → distinct ids ≡ true
    → apart p ids ≡ true
    → nonempty (p ++ q) ≡ true
    → Ends (walk sid checks ids ss)
walk-rest sid checks [] p [] ss i e a d x n =
    unfold walk in (ss, refl, rw e (all_passed-nonempty (p ++ []) n (rw append-nil a)))
walk-rest sid checks [] p (s ∷ q) ss i e a d x n = cc
walk-rest sid checks (id ∷ ids) p [] ss i e a d x n = cc
walk-rest sid checks (id ∷ ids) p (s ∷ q) ss i e a d x n =
    let h : s.step_id ≡ id = ground arith in
    let g = gate-walk id ss p s q e a (ground arith) h in
    let s' : StepState = graded (passing sid checks id) s in
    rw (walk_step sid checks id (length p) ids ss g) (
      walk-rest sid checks ids (p ++ s' ∷ []) (modify q 0 unlock)
        (apply_validation_result (passing sid checks id) (mark_step_validating (length p) ss)).steps
        (ids-unlock q ∙ ground arith) (mark-walk sid checks id ss p s q e (ground arith) h)
        (all-append step_passed p _ a refl) (ground arith)
        (apart-append p s' ids (ground arith) (rw h (ground arith)))
        (nonempty-middle p s' (modify q 0 unlock)))

ids-fresh : (ids : List ℕ) → ids_of (map (fresh_step pending) ids) ≡ ids
ids-fresh [] = refl
ids-fresh (id ∷ ids) = ap (λ r. id ∷ r) (ids-fresh ids)

apart-nil : (ids : List ℕ) → apart [] ids ≡ true
apart-nil [] = refl
apart-nil (id ∷ ids) = apart-nil ids

-- A lab whose steps have distinct IDs, one at least, can be completed from the start: where the steps are
-- validated in their order, each passes the gate, and is marked and given the engine's result that it
-- is passed before the next one is asked for, whatever the checks of these results, in the end all of
-- them are passed.
pub walk-all_passed :
    (sid : String) (checks : ℕ → List CheckOutcome) (lab uid : String) (id : ℕ) (ids : List ℕ)
    → distinct (id ∷ ids) ≡ true
    → (t : SessionSteps) × (walk sid checks (id ∷ ids) (initial lab uid (id ∷ ids)) ≡ some t)
      × (all_passed t ≡ true)
unfolding initial all_passed
walk-all_passed sid checks lab uid id ids d =
    walk-rest sid checks (id ∷ ids) [] (initial_steps (id ∷ ids)) (initial lab uid (id ∷ ids))
      (ap (λ r. id ∷ r) (ids-fresh ids)) refl refl d (apart-nil (id ∷ ids)) refl
