-- ===== src/Engine.antt =====
-- apps/validation-engine/internal/model/message.go: the messages between the API and the engine.
-- A text is the list of its code points, since the engine looks into it. An `int` of a message can be
-- negative, so it is an `ℤ`.
pub mod Checker
pub mod Executor
pub mod Handler
pub mod Consumer
use cledyu.Base.{ℕ, suc, Bool, true, false, List, [], ◌∷◌, ◌==◌}

pub data ℤ : Type 0 where
  pos : ℕ → ℤ
  negsuc : ℕ → ℤ

abbrev pub Text : Type 0
Text = List ℕ

pub data VmType : Type 0 where
  kubevirt ec2 : VmType
  unknown_vm : Text → VmType

pub data CheckType : Type 0 where
  command file_exists dir_exists file_absent file_content_absent file_content : CheckType
  process_running http_response request_error : CheckType
  unknown : Text → CheckType

pub record VmSpec : Type 0 where
  pub type : VmType
  pub name : Text
  pub namespace : Text
  pub instance_id : Text
  pub region : Text

pub record Check : Type 0 where
  pub type : CheckType
  pub command : Text
  pub path : Text
  pub url : Text
  pub name : Text
  pub expect : Text
  pub expect_code : ℤ
  pub timeout : ℤ

pub record ValidationRequest : Type 0 where
  pub trace_id : Text
  pub traceparent : Text
  pub session_id : Text
  pub step_id : ℤ
  pub vm : VmSpec
  pub checks : List Check

-- The errors of `validateCheck`, of the executors, and the reasons for which a request is turned down.
pub data Fault : Type 0 where
  no_cmd no_path no_expect no_name no_url no_code : Fault
  no_such_type : CheckType → Fault

pub data VmError : Type 0 where
  no_name_or_namespace no_instance_or_region : VmError
  no_aws_config : VmError
  no_such_vm : VmType → VmError

pub data Reason : Type 0 where
  no_session_id no_checks : Reason
  bad_step_id : ℤ → Reason
  too_many_checks : ℕ → Reason
  -- the check's index
  bad_check : ℕ → CheckType → Fault → Reason
  bad_vm : VmError → Reason

-- The details of a result, one constructor for each message that the engine formats.
pub data Detail : Type 0 where
  no_detail empty_command empty_expect zero_code vm_timeout : Detail
  unknown_type : CheckType → Detail
  bad_command bad_path bad_name bad_url : Text → Detail
  exec_failed read_failed request_failed : Text → Detail
  not_in_output not_in_file still_in_file : Text → Detail
  no_file no_dir file_there not_running : Text → Detail
  -- expected, actual
  wrong_code : Text → Text → Detail
  -- the request was turned down
  invalid_request : Reason → Detail

pub record CheckResult : Type 0 where
  pub type : CheckType
  pub passed : Bool
  pub detail : Detail

pub record ValidationResult : Type 0 where
  pub trace_id : Text
  pub session_id : Text
  pub step_id : ℤ
  pub passed : Bool
  pub checks : List CheckResult
  pub duration_ms : ℕ
