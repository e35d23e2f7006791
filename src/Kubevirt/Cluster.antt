-- ===== src/Kubevirt/Cluster.antt =====
-- What apps/api/internal/kubevirt uses of the Kubernetes API (client-go): a record of calls over the
-- state of the cluster. A read is what the API answers in that state, faults included; a write gives
-- its error and the new state.
use cledyu.Base.{ℕ, String, Bool, List, Option, GoMap}
use cledyu.Session.{BootInit}

-- an error of the API: IsNotFound holds of the first kind
pub data Fault : Type 0 where
  absent fault : String → Fault

pub data Answer {ℓ} (A : Type ℓ) : Type ℓ where
  got : A → Answer A
  failed : Fault → Answer A

pub record Namespace : Type 0 where
  pub name : String
  pub labels : GoMap String
  pub annotations : GoMap String
  pub phase : String
  pub deletion_timestamp : Option ℕ
  pub creation_timestamp : ℕ

-- what the caller gives of a new namespace
pub record NewNamespace : Type 0 where
  pub name : String
  pub labels : GoMap String
  pub annotations : GoMap String

-- an entry of status.interfaces: its ipAddress, empty if there is none, or something else
pub data Interface : Type 0 where
  interface : String → Interface
  malformed : Interface

pub record Vmi : Type 0 where
  pub phase : String
  pub interfaces : List Interface

-- the texts that cloud-init's user data is rendered from
pub record UserData : Type 0 where
  pub session_id : String
  pub lab_ssh_public_key : String
  pub file_list_ssh_public_key : String
  pub init : BootInit

pub record DataVolume : Type 0 where
  pub name : String
  pub source_namespace : String
  pub source_name : String
  pub access_modes : List String
  pub storage : String
  pub storage_class : String

pub record Disk : Type 0 where
  pub name : String
  pub bus : String

-- What a volume is made of: a data volume, or the user data in a secret.
pub data Source : Type 0 where
  data_volume cloud_init_no_cloud : String → Source

pub record Volume : Type 0 where
  pub name : String
  pub source : Source

-- The interfaces are masqueraded, the networks are the pod's.
pub record VirtualMachine : Type 0 where
  pub name : String
  pub namespace : String
  pub running : Bool
  pub instancetype : String
  pub preference : String
  pub root_disk : DataVolume
  pub termination_grace_period_seconds : ℕ
  pub disks : List Disk
  pub masquerade_interfaces : List String
  pub pod_networks : List String
  pub volumes : List Volume

pub record Kube (W : Type 0) : Type 0 where
  -- by a label and its value
  pub list_namespaces : String → String → W → Answer (List Namespace)
  pub get_namespace : String → W → Answer Namespace
  pub create_namespace : NewNamespace → W → Option Fault × W
  pub update_namespace : Namespace → W → Option Fault × W
  pub delete_namespace : String → W → Option Fault × W
  -- namespace and name
  pub create_secret : String → String → UserData → W → Option Fault × W
  pub create_vm : VirtualMachine → W → Option Fault × W
  pub get_vmi : String → String → W → Answer Vmi
  -- the phase of a claim
  pub get_pvc : String → String → W → Answer String
  pub now : W → ℕ
  -- RFC 3339
  pub format_time : ℕ → String
  pub parse_time : String → Option ℕ
