-- ===== src/Progress/Samples.antt =====
-- A lab of two steps: tests of the progress functions, and the theorems at this lab.
use cledyu.Base.{ℕ, ◌<◌, ◌≡◌, refl, true, false, [], ◌∷◌, none, some}
use cledyu.Progress.{
  active, pending, validating, SessionSteps, ValidationResult, initial, find_validatable,
  order_blocked, mark_step_validating, apply_validation_result, apply_passed, apply_at, open_next,
  all_passed, index_of, blocked,
}
use cledyu.Progress.Links.{opened}
use cledyu.Progress.Unlock.{Lab, Move, request, mark, deliver, here, next, in_play, Reach-in_play}
use cledyu.Progress.Finish.{others_passed, apply-completed, events_of}
use cledyu.Progress.Race.{status_at, overtaken-blocked}
use cledyu.Progress.Walk.{walk, walk-all_passed}

abbrev two : SessionSteps
two = record {
  lab_id = "lab-linux-basics";
  user_id = "alice";
  steps =
      record { step_id = 1; status = active; attempts = 0; checks = []; hint_level = 0 }
      ∷ record { step_id = 2; status = pending; attempts = 0; checks = []; hint_level = 0 }
      ∷ [];
  current_step = 1;
}

two-initial : initial "lab-linux-basics" "alice" (1 ∷ 2 ∷ []) ≡ two
unfolding initial
two-initial = refl

abbrev good : ℕ → ValidationResult
good id = record { session_id = "s1"; step_id = id; passed = true; checks = [] }

abbrev bad : ℕ → ValidationResult
bad id = record { session_id = "s1"; step_id = id; passed = false; checks = [] }

-- Step 2 is out of turn, and step 1 is not.
out_of_turn : find_validatable 2 two ≡ order_blocked
unfolding find_validatable index_of blocked
out_of_turn = refl

abbrev start : Lab
start = record { progress = two; requested = [] }

abbrev asked : Lab
asked = record { progress = two; requested = 1 ∷ [] }

abbrev marked : Lab
marked = record { progress = mark_step_validating 0 two; requested = 1 ∷ [] }

abbrev done : Lab
done = record {
  progress = (apply_validation_result (good 1) marked.progress).steps;
  requested = 1 ∷ [];
}

first_request : Move start asked
unfolding find_validatable index_of blocked
first_request = request 1 0 refl refl

first_mark : Move asked marked
unfolding index_of
first_mark = mark 1 0 refl refl refl

first_result : Move marked done
first_result = deliver (good 1) refl refl

Reach-in_play_example : in_play done ≡ true
Reach-in_play_example =
    Reach-in_play "lab-linux-basics" "alice" (1 ∷ 2 ∷ []) {t = done}
      (rw two-initial (next (next (next here first_request) first_mark) first_result))

-- A late failure of a passed step leaves the next one open.
late_failure : opened (apply_validation_result (bad 1) done.progress).steps.steps 1 ≡ true
unfolding mark_step_validating apply_validation_result apply_at apply_passed open_next index_of
late_failure = refl

apply-completed_example :
    ((apply_validation_result (good 1) two).completed ≡ none)
    × ((apply_validation_result (good 1) two).events ≡ events_of (good 1) false two)
unfolding index_of others_passed
apply-completed_example = apply-completed (good 1) two 0 refl

walk-all_passed_example :
    (t : SessionSteps) × (walk "s1"
        (λ id. [])
        (1 ∷ 2 ∷ [])
        (initial "lab-linux-basics" "alice" (1 ∷ 2 ∷ []))
      ≡ some t)
    × (all_passed t ≡ true)
walk-all_passed_example = walk-all_passed "s1" (λ id. []) "lab-linux-basics" "alice" 1 (2 ∷ []) refl

overtaken-blocked_example :
    (status_at (mark_step_validating 0 (apply_validation_result (good 1) two).steps).steps 0
      ≡ some validating)
    × ((id j : ℕ)
        → index_of id (mark_step_validating 0 (apply_validation_result (good 1) two).steps).steps
          ≡ some j
        → 0 < j
        → find_validatable id (mark_step_validating 0 (apply_validation_result (good 1) two).steps)
          ≡ order_blocked)
unfolding index_of
overtaken-blocked_example = overtaken-blocked (good 1) two 0 refl
