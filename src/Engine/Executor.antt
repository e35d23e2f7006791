-- ===== src/Engine/Executor.antt =====
-- apps/validation-engine/internal/executor/executor.go, and the constructors of kubevirt.go and
-- ec2.go. How the executors talk to virtctl and to AWS is a parameter.
use cledyu.Base.{ℕ, Bool, ◌||◌, if◌then◌else◌}
use cledyu.Engine.{
  Text, VmType, VmSpec, VmError, kubevirt, ec2, unknown_vm, no_name_or_namespace,
  no_instance_or_region, no_aws_config, no_such_vm,
}
use cledyu.Engine.Checker.{Outcome, VmExecutor}
use cledyu.Engine.Checker.Words.{is_empty}

pub data Made (W : Type 0) : Type 0 where
  made : VmExecutor W → Made W
  unmade : VmError → Made W

-- virtctl and AWS: a command on a VM, and whether the SDK finds its configuration for a region.
pub record Backends (W : Type 0) : Type 0 where
  -- namespace, name, limit, command
  pub virtctl_ssh : Text → Text → ℕ → Text → W → Outcome × W
  -- region, instance, limit, command
  pub ssm : Text → Text → ℕ → Text → W → Outcome × W
  pub aws_config : Text → Bool

module _ {W : Type 0} (backends : Backends W) where
  unfoldable pub new_kubevirt_executor : VmSpec → Made W
  new_kubevirt_executor vm =
      if is_empty vm.name || is_empty vm.namespace
      then unmade no_name_or_namespace
      else made (record {
        exec = backends.virtctl_ssh vm.namespace vm.name;
        default_timeout = 20;
        close = λ w. w;
      })

  unfoldable pub new_ec2_executor : VmSpec → Made W
  new_ec2_executor vm =
      if is_empty vm.instance_id || is_empty vm.region
      then unmade no_instance_or_region
      else if backends.aws_config vm.region
      then made (record {
        exec = backends.ssm vm.region vm.instance_id;
        default_timeout = 300;
        close = λ w. w;
      })
      else unmade no_aws_config

  abbrev new_for : VmType → VmSpec → Made W
  new_for kubevirt vm = new_kubevirt_executor vm
  new_for ec2 vm = new_ec2_executor vm
  new_for (unknown_vm t) vm = unmade (no_such_vm vm.type)

  -- `New`
  unfoldable pub new_executor : VmSpec → Made W
  unfolding new_kubevirt_executor new_ec2_executor
  new_executor vm = new_for vm.type vm
