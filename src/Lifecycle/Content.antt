-- ===== src/Lifecycle/Content.antt =====
-- What the handlers use of a lab's content, apps/api/internal/content/loader.go, and the messages to the
-- validation engine, apps/api/internal/validation/message.go.
use Prim.Native.String.{◌++◌}
use cledyu.Base.{ℕ, String, List, [], ◌∷◌, map, Option, none, some, ◌==◌, if◌then◌else◌}
use cledyu.Session.{Session, ProviderKind, kubevirt, ec2, BootInit}
use cledyu.Engine.{ℤ}

pub record ContentCheck : Type 0 where
  pub type : String
  pub command : String
  pub path : String
  pub url : String
  pub name : String
  pub expect : String
  pub expect_code : ℤ
  pub timeout : ℤ

pub record Step : Type 0 where
  pub id : ℕ
  pub checks : List ContentCheck

pub record LabContent : Type 0 where
  pub difficulty : String
  pub steps : List Step
  pub init : BootInit

abbrev pub step_ids : LabContent → List ℕ
step_ids lc = map (λ s. s.id) lc.steps

-- `findContentStep`
unfoldable pub find_content_step : List Step → ℕ → Option Step
find_content_step [] id = none
find_content_step (s ∷ l) id = if s.id == id then some s else find_content_step l id

pub record ApiCheck : Type 0 where
  pub type : String
  pub command : String
  pub path : String
  pub url : String
  pub name : String
  pub expect : String
  pub expect_code : ℤ
  pub timeout : ℤ

pub data ApiVm : Type 0 where
  -- name, namespace
  kubevirt_vm : String → String → ApiVm
  -- instance, region
  ec2_vm : String → String → ApiVm

pub record ApiRequest : Type 0 where
  pub trace_id : String
  pub session_id : String
  pub step_id : ℕ
  pub vm : ApiVm
  pub checks : List ApiCheck

abbrev to_check : ContentCheck → ApiCheck
to_check c = record {
  type = c.type;
  command = c.command;
  path = c.path;
  url = c.url;
  name = c.name;
  expect = c.expect;
  expect_code = c.expect_code;
  timeout = c.timeout;
}

-- `toValidationChecks`
abbrev pub to_validation_checks : List ContentCheck → List ApiCheck
to_validation_checks cs = map to_check cs

abbrev vm_for : ProviderKind → Session → String → ApiVm
vm_for ec2 s id = ec2_vm s.instance_id s.region
vm_for kubevirt s id = kubevirt_vm "session-vm" ("lab-" ++ id)

-- `vmSpecForSession`
unfoldable pub vm_spec_for_session : Session → String → ApiVm
vm_spec_for_session s id = vm_for s.provider s id
