-- ===== src/Progress.antt =====
-- The progress of a session through the steps of its lab: the types and the functions on them of
-- apps/api/internal/api/handlers/session.go, and `nextHint` of hint.go. The functions that the
-- source runs under the lock of the step store are functions on one session's record here.
-- Step IDs, attempts and hint levels are numbers; a status is one of the five that the code writes.
pub mod Links
pub mod Marks
pub mod Opens
pub mod Unlock
pub mod Gate
pub mod Finish
pub mod Walk
pub mod Hints
pub mod Race
pub mod Samples
use cledyu.Base.{
  ℕ, zero, suc, ◌+◌, String, Bool, true, false, ◌&&◌, List, [], ◌∷◌, ◌++◌, map, Option, none, some,
  ltb, ◌==◌, get_elem?, modify, all, if◌then◌else◌,
}

pub record CheckOutcome : Type 0 where
  pub type : String
  pub passed : Bool
  pub detail : String

pub data StepStatus : Type 0 where
  pending active validating passed failed : StepStatus

pub record StepState : Type 0 where
  pub step_id : ℕ
  pub status : StepStatus
  pub attempts : ℕ
  pub checks : List CheckOutcome
  pub hint_level : ℕ

pub record SessionSteps : Type 0 where
  pub lab_id : String
  pub user_id : String
  pub steps : List StepState
  pub current_step : ℕ

abbrev pub is_passed : StepStatus → Bool
is_passed passed = true
is_passed _ = false

abbrev pub is_pending : StepStatus → Bool
is_pending pending = true
is_pending _ = false

abbrev pub step_passed : StepState → Bool
step_passed s = is_passed s.status

unfoldable pub all_passed_of : List StepState → Bool
all_passed_of [] = false
all_passed_of (s ∷ l) = all step_passed (s ∷ l)

-- `allPassed`: false for a session with no step.
unfoldable pub all_passed : SessionSteps → Bool
unfolding all_passed_of
all_passed ss = all_passed_of ss.steps

abbrev pub fresh_step : StepStatus → ℕ → StepState
fresh_step st id = record { step_id = id; status = st; attempts = 0; checks = []; hint_level = 0 }

abbrev pub first_id : List ℕ → ℕ
first_id [] = 0
first_id (id ∷ ids) = id

abbrev pub initial_steps : List ℕ → List StepState
initial_steps [] = []
initial_steps (id ∷ ids) = fresh_step active id ∷ map (fresh_step pending) ids

-- What `CreateSession` and `ensureStepSession` build from the IDs of a lab's steps.
unfoldable pub initial : String → String → List ℕ → SessionSteps
initial lab uid ids = record {
  lab_id = lab;
  user_id = uid;
  steps = initial_steps ids;
  current_step = first_id ids;
}

-- The loops that look for a step by its ID and stop at the first.
unfoldable pub index_of : ℕ → List StepState → Option ℕ
index_of id [] = none
index_of id (s ∷ l) =
    if s.step_id == id
    then some 0
    else (elim (index_of id l) [ none ↦ none | some i ↦ some (suc i) ])

-- Is a step in front of the index not passed?
unfoldable pub blocked : ℕ → List StepState → Bool
blocked zero l = false
blocked (suc i) [] = false
blocked (suc i) (s ∷ l) = if step_passed s then blocked i l else true

pub data Precheck : Type 0 where
  step_at : ℕ → Precheck
  session_not_found step_not_found order_blocked : Precheck

unfoldable pub precheck_at : List StepState → Option ℕ → Precheck
precheck_at l none = step_not_found
precheck_at l (some i) = if blocked i l then order_blocked else step_at i

-- `findValidatableStepIndex` on a session that the store has.
unfoldable pub find_validatable : ℕ → SessionSteps → Precheck
unfolding precheck_at
find_validatable id ss = precheck_at ss.steps (index_of id ss.steps)

abbrev pub to_validating : StepState → StepState
to_validating s = record s { attempts = s.attempts + 1; status = validating; checks = [] }

-- `markStepValidating`; an index out of range changes nothing.
unfoldable pub mark_step_validating : ℕ → SessionSteps → SessionSteps
mark_step_validating i ss = record ss { steps = modify ss.steps i to_validating }

abbrev pub unlock : StepState → StepState
unlock s = record s { status = if is_pending s.status then active else s.status }

unfoldable pub move_on : ℕ → Option StepState → SessionSteps → SessionSteps
move_on i none ss = ss
move_on i (some next) ss = record ss {
  steps = modify ss.steps (suc i) unlock;
  current_step = next.step_id;
}

-- The lines that `ApplyValidationResult` and `markStepPassed` share: the step at `i`, already
-- written as passed, hands on to the next one.
unfoldable pub open_next : ℕ → SessionSteps → SessionSteps
unfolding move_on
open_next i ss = move_on i (get_elem? ss.steps (suc i)) ss

abbrev pub to_passed : StepState → StepState
to_passed s = record s { attempts = s.attempts + 1; status = passed }

abbrev pub completion : SessionSteps → Option (String × String)
completion ss = if all_passed ss then some (ss.user_id, ss.lab_id) else none

unfoldable pub mark_passed_in :
    ℕ → Option StepState → SessionSteps → SessionSteps × Option (String × String)
unfolding open_next
mark_passed_in i none ss = (ss, none)
mark_passed_in i (some s) ss =
    let ss' = open_next i (record ss { steps = modify ss.steps i to_passed }) in
    (ss', completion ss')

-- `markStepPassed`: the new record, and the user and lab of a completion.
unfoldable pub mark_step_passed : ℕ → SessionSteps → SessionSteps × Option (String × String)
unfolding mark_passed_in
mark_step_passed i ss = mark_passed_in i (get_elem? ss.steps i) ss

pub data EventType : Type 0 where
  lab_started step_completed validation_failed hint_requested lab_completed lab_abandoned :
      EventType

pub record Event : Type 0 where
  pub type : EventType
  pub user_id : String
  pub session_id : String
  pub lab_id : String
  pub step_id : ℕ
  pub hint_level : ℕ
  pub hint_source : String
  pub vm_provider : String

abbrev pub plain_event : EventType → SessionSteps → String → ℕ → Event
plain_event t ss sid step = record {
  type = t;
  user_id = ss.user_id;
  session_id = sid;
  lab_id = ss.lab_id;
  step_id = step;
  hint_level = 0;
  hint_source = "";
  vm_provider = "";
}

pub record ValidationResult : Type 0 where
  pub session_id : String
  pub step_id : ℕ
  pub passed : Bool
  pub checks : List CheckOutcome

abbrev pub to_result : ValidationResult → StepState → StepState
to_result r s = record s { checks = r.checks; status = if r.passed then passed else failed }

-- What the closure of `ApplyValidationResult` leaves: the record, the events in order, and the user
-- and lab of a completion.
pub record Applied : Type 0 where
  pub steps : SessionSteps
  pub events : List Event
  pub completed : Option (String × String)

unfoldable pub apply_passed : ValidationResult → SessionSteps → Applied
apply_passed r ss = record {
  steps = ss;
  events =
      plain_event step_completed ss r.session_id r.step_id
      ∷ (if all_passed ss then plain_event lab_completed ss r.session_id 0 ∷ [] else []);
  completed = completion ss;
}

unfoldable pub apply_at : ValidationResult → Option ℕ → SessionSteps → Applied
apply_at r none ss = record { steps = ss; events = []; completed = none }
apply_at r (some i) ss =
    let ss' = record ss { steps = modify ss.steps i (to_result r) } in
    if r.passed then apply_passed r (open_next i ss') else record {
      steps = ss';
      events = plain_event validation_failed ss r.session_id r.step_id ∷ [];
      completed = none;
    }

-- `ApplyValidationResult` on a session that the store has; an unknown step is ignored.
unfoldable pub apply_validation_result : ValidationResult → SessionSteps → Applied
unfolding apply_at
apply_validation_result r ss = apply_at r (index_of r.step_id ss.steps) ss

abbrev pub max_hint_level : ℕ
max_hint_level = 3

-- The level of a hint: the one asked for, or for 0 one more than the last, at most 3.
abbrev pub hint_level_for : ℕ → ℕ → ℕ
hint_level_for last explicit =
    if explicit == 0
    then (if ltb max_hint_level (last + 1) then max_hint_level else last + 1)
    else explicit

abbrev pub raise_hint : ℕ → StepState → StepState
raise_hint level s = record s {
  hint_level = if ltb s.hint_level level then level else s.hint_level;
}

unfoldable pub hint_at : Option StepState → ℕ → ℕ
hint_at none explicit = if explicit == 0 then 1 else explicit
hint_at (some s) explicit = hint_level_for s.hint_level explicit

abbrev pub step_of : Option ℕ → List StepState → Option StepState
step_of none l = none
step_of (some i) l = get_elem? l i

abbrev pub raise_at : Option ℕ → ℕ → List StepState → List StepState
raise_at none level l = l
raise_at (some i) level l = modify l i (raise_hint level)

-- The closure of `nextHint`: the level to use, and the record with the step's history. The lab's ID
-- is a field of the record.
unfoldable pub next_hint : ℕ → ℕ → SessionSteps → ℕ × SessionSteps
unfolding hint_at
next_hint id explicit ss =
    let i = index_of id ss.steps in
    let level = hint_at (step_of i ss.steps) explicit in
    (level, record ss { steps = raise_at i level ss.steps })
