-- ===== src/Engine/Checker.antt =====
-- apps/validation-engine/internal/checker/checker.go. The executor (executor.VMExecutor) is a
-- parameter over the state `W` of the VM. The context's limit is its timeout, in seconds.
pub mod Words
pub mod Safety
pub mod Verdict
pub mod Samples
use cledyu.Base.{
  ℕ, zero, suc, Bool, true, false, ◌&&◌, ◌||◌, not, List, [], ◌∷◌, ◌++◌, String, codes,
  if◌then◌else◌, all,
}
use cledyu.Engine.{
  ℤ, pos, negsuc, Text, Check, CheckType, CheckResult, Detail, command, file_exists, dir_exists,
  file_absent, file_content_absent, file_content, process_running, http_response, request_error,
  unknown, no_detail, empty_command, empty_expect, zero_code, vm_timeout, unknown_type, bad_command,
  bad_path, bad_name, bad_url, exec_failed, read_failed, request_failed, not_in_output, not_in_file,
  still_in_file, no_file, no_dir, file_there, not_running, wrong_code,
}
use Words.{
  is_empty, contains, trim_space, text_eq, decimal, safe_path, safe_name, safe_url, safe_command,
}

-- What `Exec` returns: the output, an error for which `errors.Is(err, context.DeadlineExceeded)`, or
-- any other error with its text.
pub data Outcome : Type 0 where
  output : Text → Outcome
  deadline_exceeded : Outcome
  exec_error : Text → Outcome

pub record VmExecutor (W : Type 0) : Type 0 where
  -- the limit, the command
  pub exec : ℕ → Text → W → Outcome × W
  pub default_timeout : ℕ
  pub close : W → W

unfoldable pub pass : CheckType → CheckResult
pass t = record { type = t; passed = true; detail = no_detail }

unfoldable pub fail : CheckType → Detail → CheckResult
fail t d = record { type = t; passed = false; detail = d }

-- `requestError`: the VM could not be reached.
unfoldable pub request_error_result : Detail → CheckResult
request_error_result d = record { type = request_error; passed = false; detail = d }

-- The answer after a command whose success decides, and after one whose output is looked at.
abbrev pub on_success : CheckType → (Text → Detail) → Outcome → CheckResult
on_success t d (output _) = pass t
on_success t d deadline_exceeded = request_error_result vm_timeout
on_success t d (exec_error e) = fail t (d e)

abbrev pub on_output : CheckType → (Text → Detail) → (Text → CheckResult) → Outcome → CheckResult
on_output t d k (output o) = k o
on_output t d k deadline_exceeded = request_error_result vm_timeout
on_output t d k (exec_error e) = fail t (d e)

abbrev pub is_zero : ℤ → Bool
is_zero (pos zero) = true
is_zero (pos (suc n)) = false
is_zero (negsuc n) = false

module _ {W : Type 0} (exe : VmExecutor W) (limit : ℕ) where
  abbrev then_answer : (Outcome → CheckResult) → Text → W → CheckResult × W
  then_answer k cmd w = let (o, w') = exe.exec limit cmd w in (k o, w')

  abbrev found_in_output : Check → Text → CheckResult
  found_in_output c o =
      if is_empty c.expect
      then fail c.type empty_expect
      else if contains o c.expect
      then pass c.type
      else fail c.type (not_in_output c.expect)

  unfoldable pub run_command : Check → W → CheckResult × W
  run_command c w =
      if is_empty c.command
      then (fail c.type empty_command, w)
      else if safe_command c.command
      then then_answer (on_output c.type exec_failed (found_in_output c)) c.command w
      else (fail c.type (bad_command c.command), w)

  unfoldable pub run_file_exists : Check → W → CheckResult × W
  run_file_exists c w =
      if safe_path c.path
      then then_answer (on_success c.type (λ _. no_file c.path)) (codes "test -f " ++ c.path) w
      else (fail c.type (bad_path c.path), w)

  unfoldable pub run_dir_exists : Check → W → CheckResult × W
  run_dir_exists c w =
      if safe_path c.path
      then then_answer (on_success c.type (λ _. no_dir c.path)) (codes "test -d " ++ c.path) w
      else (fail c.type (bad_path c.path), w)

  unfoldable pub run_file_absent : Check → W → CheckResult × W
  run_file_absent c w =
      if safe_path c.path
      then then_answer (on_success c.type (λ _. file_there c.path)) (codes "test ! -f " ++ c.path) w
      else (fail c.type (bad_path c.path), w)

  abbrev found_in_file : Check → Text → CheckResult
  found_in_file c o =
      if contains o c.expect then pass c.type else fail c.type (not_in_file c.expect)

  unfoldable pub run_file_content : Check → W → CheckResult × W
  run_file_content c w =
      if safe_path c.path
      then if is_empty c.expect
        then (fail c.type empty_expect, w)
        else then_answer (on_output c.type read_failed (found_in_file c)) (codes "cat " ++ c.path) w
      else (fail c.type (bad_path c.path), w)

  abbrev not_found_in_file : Check → Text → CheckResult
  not_found_in_file c o =
      if contains o c.expect then fail c.type (still_in_file c.expect) else pass c.type

  -- the `cat` after the file's existence was tested
  abbrev after_exists : Check → Outcome → W → CheckResult × W
  after_exists c deadline_exceeded w = (request_error_result vm_timeout, w)
  after_exists c (exec_error e) w = (pass c.type, w)
  after_exists c (output _) w =
      then_answer (on_output c.type read_failed (not_found_in_file c)) (codes "cat " ++ c.path) w

  unfoldable pub run_file_content_absent : Check → W → CheckResult × W
  run_file_content_absent c w =
      if safe_path c.path
      then if is_empty c.expect
        then (fail c.type empty_expect, w)
        else (let (o, w') = exe.exec limit (codes "test -e " ++ c.path) w in after_exists c o w')
      else (fail c.type (bad_path c.path), w)

  unfoldable pub run_process_running : Check → W → CheckResult × W
  run_process_running c w =
      if safe_name c.name
      then then_answer (on_success c.type (λ _. not_running c.name)) (codes "pgrep " ++ c.name) w
      else (fail c.type (bad_name c.name), w)

  abbrev code_matches : Check → Text → CheckResult
  code_matches c o =
      if text_eq (trim_space o) (decimal c.expect_code)
      then pass c.type
      else fail c.type (wrong_code (decimal c.expect_code) o)

  unfoldable pub run_http_response : Check → W → CheckResult × W
  run_http_response c w =
      if is_zero c.expect_code
      then (fail c.type zero_code, w)
      else if safe_url c.url
      then then_answer (on_output c.type request_failed (code_matches c))
          (codes "curl -s -o /dev/null -w %{http_code} " ++ c.url) w
      else (fail c.type (bad_url c.url), w)

  -- the `switch` of `Run`
  unfoldable pub run_type : CheckType → Check → W → CheckResult × W
  unfolding run_command run_file_exists run_dir_exists run_file_absent run_file_content
      run_file_content_absent run_process_running run_http_response
  run_type command c w = run_command c w
  run_type file_exists c w = run_file_exists c w
  run_type dir_exists c w = run_dir_exists c w
  run_type file_absent c w = run_file_absent c w
  run_type file_content_absent c w = run_file_content_absent c w
  run_type file_content c w = run_file_content c w
  run_type process_running c w = run_process_running c w
  run_type http_response c w = run_http_response c w
  run_type request_error c w = (fail c.type (unknown_type c.type), w)
  run_type (unknown t) c w = (fail c.type (unknown_type c.type), w)

abbrev pub limit_of : ℕ → ℤ → ℕ
limit_of default (pos zero) = default
limit_of default (pos (suc n)) = suc n
limit_of default (negsuc n) = default

module _ {W : Type 0} (exe : VmExecutor W) where
  -- `Run`: the check's own timeout if it is positive, else the executor's.
  unfoldable pub run : Check → W → CheckResult × W
  run c w = run_type exe (limit_of exe.default_timeout c.timeout) c.type c w

  -- `RunAll`: every check is run, also after a failed one.
  unfoldable pub run_all : List Check → W → (List CheckResult × Bool) × W
  run_all [] w = (([], true), w)
  run_all (c ∷ cs) w =
      let (r, w1) = run c w in let ((rs, ok), w2) = run_all cs w1 in ((r ∷ rs, r.passed && ok), w2)
