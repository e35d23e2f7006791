-- ===== src/Engine/Handler/Fields.antt =====
-- main.go's `validateCheck` beside checker.go: which fields a check that is let through can lack.
use cledyu.Base.{ℕ, ◌≡◌, Bool, true, false, ◌&&◌, none, arith}
use cledyu.Engine.{
  Check, CheckType, Detail, command, file_exists, dir_exists, file_absent, file_content_absent,
  file_content, process_running, http_response, request_error, unknown, empty_command, empty_expect,
  zero_code, unknown_type,
}
use cledyu.Engine.Checker.{VmExecutor, run, run_type, limit_of, pass, fail, request_error_result}
use cledyu.Engine.Checker.Words.{is_empty}
use cledyu.Engine.Handler.{validate_check}

-- The details by which the checker says that a field is missing or the type unknown.
abbrev pub lacking : Detail → Bool
lacking empty_command = true
lacking empty_expect = true
lacking zero_code = true
lacking (unknown_type t) = true
lacking _ = false

abbrev pub is_command : CheckType → Bool
is_command command = true
is_command _ = false

module _ {W : Type 0} (exe : VmExecutor W) where
  type-lacking :
      (limit : ℕ) (t : CheckType) (c : Check) (w : W)
      → validate_check t c ≡ none
      → (is_command t && is_empty c.expect) ≡ false
      → lacking (run_type exe limit t c w).0.detail ≡ false
  unfolding validate_check run_type pass fail request_error_result
  type-lacking limit command c w v n = ground arith
  type-lacking limit file_exists c w v n = ground arith
  type-lacking limit dir_exists c w v n = ground arith
  type-lacking limit file_absent c w v n = ground arith
  type-lacking limit file_content_absent c w v n = ground arith
  type-lacking limit file_content c w v n = ground arith
  type-lacking limit process_running c w v n = ground arith
  type-lacking limit http_response c w v n = ground arith
  type-lacking limit request_error c w v n = cc
  type-lacking limit (unknown t) c w v n = cc

  -- The checker finds no field missing and no type unknown in a check that `validateCheck` accepts,
  -- unless it is a `command` without a text to expect.
  pub run-lacking :
      (c : Check) (w : W)
      → validate_check c.type c ≡ none
      → (is_command c.type && is_empty c.expect) ≡ false
      → lacking (run exe c w).0.detail ≡ false
  unfolding run
  run-lacking c w v n = type-lacking (limit_of exe.default_timeout c.timeout) c.type c w v n

  type-blank :
      (limit : ℕ) (t : CheckType) (c : Check) (w : W)
      → t ≡ command
      → is_empty c.expect ≡ true
      → (run_type exe limit t c w).0.passed ≡ false
  unfolding run_type fail request_error_result
  type-blank limit t c w e x = rw e (ground arith)

  -- A `command` without a text to expect is accepted by `validateCheck` as soon as it has a command,
  -- and fails on every VM, whatever the command does there.
  pub blank_command_fails :
      (c : Check) (w : W)
      → c.type ≡ command
      → is_empty c.command ≡ false
      → is_empty c.expect ≡ true
      → (validate_check c.type c ≡ none) × ((run exe c w).0.passed ≡ false)
  unfolding run validate_check
  blank_command_fails c w t n x =
      (rw t (ground arith), type-blank (limit_of exe.default_timeout c.timeout) c.type c w t x)
