-- ===== src/Engine/Handler.antt =====
-- apps/validation-engine/cmd/engine/main.go: `validateCheck` and `handle`. The publisher and the clock
-- are parameters; tracing and logging are left out.
pub mod Answers
pub mod Fields
use cledyu.Base.{
  ℕ, suc, ◌+◌, ◌-◌, Bool, true, false, List, [], ◌∷◌, Option, none, some, length, ltb,
  if◌then◌else◌,
}
use cledyu.Engine.{
  ℤ, pos, negsuc, VmSpec, Check, CheckType, CheckResult, ValidationRequest, ValidationResult, Fault,
  Reason, command, file_exists, dir_exists, file_absent, file_content_absent, file_content,
  process_running, http_response, request_error, unknown, no_cmd, no_path, no_expect, no_name,
  no_url, no_code, no_such_type, no_session_id, no_checks, bad_step_id, too_many_checks, bad_check,
  bad_vm, invalid_request,
}
use cledyu.Engine.Checker.{VmExecutor, run_all, is_zero}
use cledyu.Engine.Checker.Words.{is_empty}
use cledyu.Engine.Executor.{Made, made, unmade}

abbrev pub max_checks : ℕ
max_checks = 20

-- `publisher`, which answers whether the result went out, and the clock in milliseconds.
pub record Publisher (W : Type 0) : Type 0 where
  pub publish : ValidationResult → W → Bool × W
  pub now : W → ℕ × W

-- What a handler answers: nil, an error, or a `FatalError`.
pub data Handled : Type 0 where
  done failed fatal : Handled

abbrev needs : Bool → Fault → Option Fault → Option Fault
needs true f rest = some f
needs false f rest = rest

-- `validateCheck`
unfoldable pub validate_check : CheckType → Check → Option Fault
validate_check command c = needs (is_empty c.command) no_cmd none
validate_check file_exists c = needs (is_empty c.path) no_path none
validate_check dir_exists c = needs (is_empty c.path) no_path none
validate_check file_absent c = needs (is_empty c.path) no_path none
validate_check file_content c =
    needs (is_empty c.path) no_path (needs (is_empty c.expect) no_expect none)
validate_check file_content_absent c =
    needs (is_empty c.path) no_path (needs (is_empty c.expect) no_expect none)
validate_check process_running c = needs (is_empty c.name) no_name none
validate_check http_response c =
    needs (is_empty c.url) no_url (needs (is_zero c.expect_code) no_code none)
validate_check request_error c = some (no_such_type c.type)
validate_check (unknown t) c = some (no_such_type c.type)

abbrev faulty : ℕ → CheckType → Option Fault → Option Reason → Option Reason
faulty i t (some f) rest = some (bad_check i t f)
faulty i t none rest = rest

-- The first check that lacks a field, from the index `i` on.
unfoldable pub validate_checks : ℕ → List Check → Option Reason
validate_checks i [] = none
validate_checks i (c ∷ cs) = faulty i c.type (validate_check c.type c) (validate_checks (suc i) cs)

abbrev not_positive : ℤ → Bool
not_positive (pos n) = ltb n 1
not_positive (negsuc n) = true

-- Why a request is turned down before a VM is looked for.
unfoldable pub validate_request : ValidationRequest → Option Reason
unfolding validate_checks
validate_request req =
    if is_empty req.session_id
    then some no_session_id
    else if not_positive req.step_id
    then some (bad_step_id req.step_id)
    else if is_nil req.checks
    then some no_checks
    else if ltb max_checks (length req.checks)
    then some (too_many_checks (length req.checks))
    else validate_checks 0 req.checks
  where
    is_nil : List Check → Bool
    is_nil [] = true
    is_nil (c ∷ cs) = false

unfoldable pub result_of : ValidationRequest → List CheckResult → Bool → ℕ → ValidationResult
result_of req rs ok ms = record {
  trace_id = req.trace_id;
  session_id = req.session_id;
  step_id = req.step_id;
  passed = ok;
  checks = rs;
  duration_ms = ms;
}

abbrev pub turned_down : Reason → List CheckResult
turned_down r = record { type = request_error; passed = false; detail = invalid_request r } ∷ []

module _ {W : Type 0} (publisher : Publisher W) where
  abbrev sent : Bool → Handled
  sent true = done
  sent false = fatal

  -- The result goes out with the time since `start`.
  unfoldable pub publish_result : ℕ → ValidationRequest → List CheckResult → Bool → W → Handled × W
  unfolding result_of
  publish_result start req rs ok w =
      let (end, w1) = publisher.now w in
      let (b, w2) = publisher.publish (result_of req rs ok (end - start)) w1 in (sent b, w2)

module _ {W : Type 0} (publisher : Publisher W) (new_exec : VmSpec → W → Made W × W) where
  -- `publishFailed`
  abbrev pub publish_failed : ℕ → ValidationRequest → Reason → W → Handled × W
  publish_failed start req r w = publish_result publisher start req (turned_down r) false w

  -- `defer exe.Close()`
  abbrev pub closing : VmExecutor W → Handled × W → Handled × W
  closing exe r = (r.0, exe.close r.1)

  abbrev pub with_executor : ℕ → ValidationRequest → Made W → W → Handled × W
  with_executor start req (unmade e) w = publish_failed start req (bad_vm e) w
  with_executor start req (made exe) w =
      let ((rs, ok), w1) = run_all exe req.checks w in
      closing exe (publish_result publisher start req rs ok w1)

  abbrev pub answer : ℕ → ValidationRequest → Option Reason → W → Handled × W
  answer start req (some r) w = publish_failed start req r w
  answer start req none w = let (m, w1) = new_exec req.vm w in with_executor start req m w1

  -- `handle`
  unfoldable pub handle : ValidationRequest → W → Handled × W
  unfolding publish_result validate_request run_all
  handle req w = let (start, w1) = publisher.now w in answer start req (validate_request req) w1
