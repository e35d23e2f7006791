-- ===== src/Kubevirt.antt =====
-- apps/api/internal/kubevirt/session.go: the on-premises VM provider, over the Kubernetes API. A session
-- is a namespace that carries its metadata as annotations, and a VM in it.
pub mod Cluster
pub mod Boot
pub mod Manager
pub mod Laws
mod Live
mod Synced
mod Looks
pub mod View
mod Reap
mod Walk
pub mod Provides
pub mod Spares
pub mod Once
pub mod Samples
use Prim.Native.String.{◌++◌}
use cledyu.Base.{
  ℕ, ◌+◌, ◌*◌, String, Bool, true, false, not, ◌&&◌, ◌||◌, List, [], ◌∷◌, Option, none, some, GoMap,
  str_eq, ltb, leb, ◌==◌, if◌then◌else◌, trim_prefix, count,
}
use cledyu.Session.{
  Err, not_found, other, Result, ok, err, Status, provisioning, ready, failed as failed_status,
  Session, kubevirt, BootInit, Provider,
}
use cledyu.Kubevirt.Cluster.{
  Fault, absent, fault, Answer, got, failed, Namespace, NewNamespace, Interface, interface,
  malformed, Vmi, UserData, DataVolume, data_volume, cloud_init_no_cloud, VirtualMachine, Kube,
}
use cledyu.Kubevirt.Boot.{
  State, label_managed_by, managed_by_value, ann_started, text_at, time_or_zero, wrap, started_at,
  since, sync_boot_status, is_failure,
}

pub record Config : Type 0 where
  pub session_ttl_hours : ℕ
  pub max_active_sessions : ℕ
  -- 0 for no limit
  pub provision_timeout_minutes : ℕ
  pub lab_ssh_public_key : String
  pub file_list_ssh_public_key : String
  pub base_image_ns : String
  pub base_image_name : String
  pub storage_class : String

abbrev pub ann_user : String
ann_user = "cledyu.io/user-id"

abbrev pub ann_lab : String
ann_lab = "cledyu.io/lab-id"

abbrev pub ann_expires : String
ann_expires = "cledyu.io/expires-at"

abbrev pub lab_vm_types : GoMap String
lab_vm_types =
    ("lab-k8s-basics", "lab-small")
    ∷ ("lab-docker-basics", "lab-small")
    ∷ ("lab-ansible-basics", "lab-small")
    ∷ ("lab-terraform-basics", "lab-small")
    ∷ ("lab-helm-advanced", "lab-medium")
    ∷ []

unfoldable pub vm_type : String → String
vm_type lab = let t = text_at lab lab_vm_types in if str_eq t "" then "lab-small" else t

abbrev pub namespace_of : String → String
namespace_of id = "lab-" ++ id

abbrev pub session_id_of : String → String
session_id_of ns = trim_prefix ns "lab-"

abbrev pub is_some {ℓ} : {A : Type ℓ} → Option A → Bool
is_some (some _) = true
is_some none = false

abbrev pub namespace_deleting : Namespace → Bool
namespace_deleting n = str_eq n.phase "Terminating" || is_some n.deletion_timestamp

-- the phase of a VMI as the code reads it: empty on any error
abbrev pub phase_of : Answer Vmi → String
phase_of (got v) = v.phase
phase_of (failed e) = ""

unfoldable pub phase_status : String → Status
phase_status p =
    if str_eq p "Running"
    then ready
    else if str_eq p "Failed" || str_eq p "Succeeded"
    then failed_status
    else provisioning

unfoldable pub first_address : List Interface → Result String
first_address [] = err not_found
first_address (malformed ∷ l) = first_address l
first_address (interface ip ∷ l) =
    let rest = first_address l in if str_eq ip "" then rest else ok ip

abbrev pub address_answer : Answer Vmi → Result String
address_answer (got v) = first_address v.interfaces
address_answer (failed (absent e)) = err not_found
address_answer (failed (fault e)) = err (wrap "get vmi" (fault e))

abbrev pub deleted_answer : Option Fault → Option Err
deleted_answer none = none
deleted_answer (some (absent e)) = some not_found
deleted_answer (some (fault e)) = some (wrap "delete namespace" (fault e))

-- err != nil && !IsNotFound(err)
abbrev pub hard_fault : Option Fault → Bool
hard_fault (some (fault e)) = true
hard_fault (some (absent e)) = false
hard_fault none = false

-- a write to the cluster: nothing is recorded
abbrev pub write : {W : Type 0} → (W → Option Fault × W) → State W → Option Fault × State W
write f s = let (e, w) = f s.cluster in (e, record { cluster = w; recorded = s.recorded })

unfoldable pub first_of : String → List Namespace → String
first_of uid [] = ""
first_of uid (n ∷ l) =
    let rest = first_of uid l in
    if str_eq (text_at ann_user n.annotations) uid
    then if namespace_deleting n then rest else session_id_of n.name
    else rest

module _ {W : Type 0} (k : Kube W) where
  unfoldable pub list_sessions : W → Answer (List Namespace)
  list_sessions = k.list_namespaces label_managed_by managed_by_value

  unfoldable pub find_active_by_user : String → W → Result String
  unfolding list_sessions first_of
  find_active_by_user uid w = if str_eq uid "" then ok "" else elim (list_sessions w) [
    | failed e ↦ err (wrap "list session namespaces" e)
    | got l ↦ ok (first_of uid l)
  ]

  unfoldable pub count_active_sessions : W → Result ℕ
  unfolding list_sessions
  count_active_sessions w = elim (list_sessions w) [
    | failed e ↦ err (wrap "list session namespaces" e)
    | got l ↦ ok (count (λ n. not (namespace_deleting n)) l)
  ]

  unfoldable pub vmi_phase : String → W → String
  vmi_phase ns w = phase_of (k.get_vmi ns "session-vm" w)

  unfoldable pub vmi_address : String → W → Result String
  unfolding first_address
  vmi_address id w = address_answer (k.get_vmi (namespace_of id) "session-vm" w)

  unfoldable pub provisioning_stage : String → String → W → String
  provisioning_stage ns phase w =
      let early = if str_eq phase "" then "disk_cloning" else "vm_starting" in
      elim (k.get_pvc ns "session-rootdisk" w) [
        | got claim ↦ if str_eq claim "Bound" then "vm_starting" else early
        | failed e ↦ early
      ]

  unfoldable pub delete : String → State W → Option Err × State W
  delete id s =
      let (e, s') = write (k.delete_namespace (namespace_of id)) s in (deleted_answer e, s')

module _ (cfg : Config) where
  unfoldable pub user_data : String → BootInit → UserData
  user_data sid init = record {
    session_id = sid;
    lab_ssh_public_key = cfg.lab_ssh_public_key;
    file_list_ssh_public_key = cfg.file_list_ssh_public_key;
    init = init;
  }

  unfoldable pub session_vm : String → String → VirtualMachine
  unfolding vm_type
  session_vm sid lab = record {
    name = "session-vm";
    namespace = namespace_of sid;
    running = true;
    instancetype = vm_type lab;
    preference = "cledyu-ubuntu";
    root_disk = record {
      name = "session-rootdisk";
      source_namespace = cfg.base_image_ns;
      source_name = cfg.base_image_name;
      access_modes = "ReadWriteOnce" ∷ [];
      storage = "10Gi";
      storage_class = cfg.storage_class;
    };
    termination_grace_period_seconds = 30;
    disks =
        record { name = "rootdisk"; bus = "virtio" }
        ∷ record { name = "cloudinitdisk"; bus = "virtio" }
        ∷ [];
    masquerade_interfaces = "default" ∷ [];
    pod_networks = "default" ∷ [];
    volumes =
        record { name = "rootdisk"; source = data_volume "session-rootdisk" }
        ∷ record { name = "cloudinitdisk"; source = cloud_init_no_cloud "session-cloudinit" }
        ∷ [];
  }

  unfoldable pub new_session : String → String → String → ℕ → Session
  new_session sid lab uid now = record {
    id = sid;
    lab_id = lab;
    user_id = uid;
    status = provisioning;
    provisioning_stage = "";
    started_at = now;
    expires_at = now + cfg.session_ttl_hours * 3600;
    provider = kubevirt;
    instance_id = "";
    region = "";
    tailnet_enabled = false;
  }

module _ {W : Type 0} (k : Kube W) (cfg : Config) where
  unfoldable pub new_namespace : String → String → String → ℕ → NewNamespace
  new_namespace sid lab uid now = record {
    name = namespace_of sid;
    labels = (label_managed_by, managed_by_value) ∷ [];
    annotations =
        (ann_lab, lab)
        ∷ (ann_user, uid)
        ∷ (ann_started, k.format_time now)
        ∷ (ann_expires, k.format_time (now + cfg.session_ttl_hours * 3600))
        ∷ [];
  }

  unfoldable pub create : String → String → String → BootInit → State W → Result Session × State W
  unfolding new_namespace user_data session_vm new_session
  create sid lab uid init s =
      let now = k.now s.cluster in
      let (e1, s1) = write (k.create_namespace (new_namespace sid lab uid now)) s in
      let (e2, s2) =
        write (k.create_secret (namespace_of sid) "session-cloudinit" (user_data cfg sid init))
          s1 in
      let (e3, s3) = write (k.create_vm (session_vm cfg sid lab)) s2 in
      elim e1 [
        | some f ↦ (err (wrap "create namespace" f), s1)
        | none ↦ elim e2 [
          | some f ↦ (err (wrap "create cloud-init secret" f), s2)
          | none ↦ elim e3 [
            | some f ↦ (err (wrap "create vm" f), s3)
            | none ↦ (ok (new_session cfg sid lab uid now), s3)
          ]
        ]
      ]

  unfoldable pub provisioning_timed_out : ℕ → W → Bool
  provisioning_timed_out started w =
      not (cfg.provision_timeout_minutes == 0)
      && (not (started == 0) && leb (cfg.provision_timeout_minutes * 60) (since k started w))
