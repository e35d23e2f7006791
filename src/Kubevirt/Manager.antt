-- ===== src/Kubevirt/Manager.antt =====
-- apps/api/internal/kubevirt/session.go: Get, the two reapers, and the manager as a provider.
use cledyu.Base.{
  ℕ, ◌+◌, String, Bool, false, not, ◌||◌, List, [], ◌∷◌, Option, none, some, str_eq, ltb, ◌==◌,
  if◌then◌else◌,
}
use cledyu.Session.{
  Err, not_found, Result, ok, err, Status, provisioning, ready, failed as failed_status, Session,
  kubevirt, Provider,
}
use cledyu.Kubevirt.{
  Config, ann_user, ann_lab, ann_expires, namespace_of, session_id_of, namespace_deleting, phase_of,
  phase_status, hard_fault, write, create, list_sessions, find_active_by_user,
  count_active_sessions, vmi_phase, vmi_address, provisioning_stage, provisioning_timed_out, delete,
}
use cledyu.Kubevirt.Cluster.{absent, fault, Answer, got, failed, Namespace, Vmi, Kube}
use cledyu.Kubevirt.Boot.{State, text_at, time_or_zero, wrap, started_at, sync_boot_status}

-- Only a session that is being provisioned has a stage.
abbrev pub with_stage : Status → String → Status × String
with_stage provisioning stage = (provisioning, stage)
with_stage ready stage = (ready, "")
with_stage failed_status stage = (failed_status, "")

-- what is recorded of a session that is reaped before it got ready
abbrev pub record_phase : String → String
record_phase phase = if str_eq phase "Failed" || str_eq phase "Succeeded" then phase else "TimedOut"

module _ {W : Type 0} (k : Kube W) (cfg : Config) where
  unfoldable pub session_of : String → Namespace → Status → String → Session
  session_of id n status stage = record {
    id = id;
    lab_id = text_at ann_lab n.annotations;
    user_id = text_at ann_user n.annotations;
    status = status;
    provisioning_stage = stage;
    started_at = started_at k n;
    expires_at = time_or_zero (k.parse_time (text_at ann_expires n.annotations));
    provider = kubevirt;
    instance_id = "";
    region = "";
    tailnet_enabled = false;
  }

  -- The status and the stage that the VMI shows; an error of any kind counts as no VMI.
  unfoldable pub vmi_shows : String → Answer Vmi → W → Status × String
  unfolding phase_status provisioning_stage
  vmi_shows ns a w = with_stage (phase_status (phase_of a)) (provisioning_stage k ns (phase_of a) w)

  -- the poll path's syncBootStatus, whose error is only logged
  unfoldable pub sync_final : String → String → State W → State W
  unfolding sync_boot_status
  sync_final ns phase s =
      if str_eq phase "Running" || (str_eq phase "Failed" || str_eq phase "Succeeded")
      then (sync_boot_status k ns phase s).1
      else s

  unfoldable pub time_out :
      String → Namespace → Status × String → State W → Result Session × State W
  unfolding session_of provisioning_timed_out sync_boot_status
  time_out id n (provisioning, stage) s =
      if provisioning_timed_out k cfg (started_at k n) s.cluster
      then (
        ok (session_of id n failed_status ""),
        (sync_boot_status k (namespace_of id) "TimedOut" s).1,
      )
      else (ok (session_of id n provisioning stage), s)
  time_out id n (ready, stage) s = (ok (session_of id n ready stage), s)
  time_out id n (failed_status, stage) s = (ok (session_of id n failed_status stage), s)

  unfoldable pub get : String → State W → Result Session × State W
  unfolding vmi_shows sync_final time_out
  get id s = elim (k.get_namespace (namespace_of id) s.cluster) [
    | failed (absent e) ↦ (err not_found, s)
    | failed (fault e) ↦ (err (wrap "get namespace" (fault e)), s)
    | got n ↦
        let a = k.get_vmi (namespace_of id) "session-vm" s.cluster in
        time_out id n (vmi_shows (namespace_of id) a s.cluster)
          (sync_final (namespace_of id) (phase_of a) s)
  ]

  -- the deletion of a reaper: whether the namespace counts as reaped
  unfoldable pub reap_delete : Namespace → State W → Bool × State W
  reap_delete n s = let (e, s') = write (k.delete_namespace n.name) s in (not (hard_fault e), s')

  unfoldable pub started_or_created : Namespace → ℕ
  started_or_created n = if started_at k n == 0 then n.creation_timestamp else started_at k n

  -- Where the boot result could not be recorded, the next round tries again.
  unfoldable pub reap_synced : Namespace → Option Err × State W → Bool × State W
  unfolding reap_delete
  reap_synced n (some e, s) = (false, s)
  reap_synced n (none, s) = reap_delete n s

  -- the loop bodies
  unfoldable pub reap_stuck_one : ℕ → ℕ → Namespace → State W → Bool × State W
  unfolding started_or_created vmi_phase sync_boot_status reap_synced
  reap_stuck_one now timeout n s =
      let phase = vmi_phase k n.name s.cluster in
      if namespace_deleting n
      then (false, s)
      else if ltb now (started_or_created n + timeout)
      then (false, s)
      else if str_eq phase "Running"
      then (false, s)
      else reap_synced n (sync_boot_status k n.name (record_phase phase) s)

  unfoldable pub reap_expired_one : ℕ → Namespace → State W → Bool × State W
  unfolding reap_delete
  reap_expired_one now n s =
      if namespace_deleting n
      then (false, s)
      else elim (k.parse_time (text_at ann_expires n.annotations)) [
        | none ↦ (false, s)
        | some t ↦ if t == 0 || ltb now t then (false, s) else reap_delete n s
      ]

  unfoldable pub reap_each :
      (Namespace → State W → Bool × State W) → List Namespace → State W → List String × State W
  reap_each one [] s = ([], s)
  reap_each one (n ∷ l) s =
      let (hit, s1) = one n s in
      let (ids, s2) = reap_each one l s1 in (if hit then session_id_of n.name ∷ ids else ids, s2)

  unfoldable pub reap_listed :
      (Namespace → State W → Bool × State W) → State W → (List String × Option Err) × State W
  unfolding reap_each list_sessions
  reap_listed one s = elim (list_sessions k s.cluster) [
    | failed e ↦ (([], some (wrap "list session namespaces" e)), s)
    | got l ↦ let (ids, s') = reap_each one l s in ((ids, none), s')
  ]

  unfoldable pub reap_stuck_sessions : ℕ → State W → (List String × Option Err) × State W
  unfolding reap_listed reap_stuck_one
  reap_stuck_sessions timeout s = reap_listed (reap_stuck_one (k.now s.cluster) timeout) s

  unfoldable pub reap_expired_sessions : State W → (List String × Option Err) × State W
  unfolding reap_listed reap_expired_one
  reap_expired_sessions s = reap_listed (reap_expired_one (k.now s.cluster)) s

  unfoldable pub manager : Provider (State W)
  unfolding create get delete find_active_by_user count_active_sessions reap_stuck_sessions
      reap_expired_sessions vmi_address
  manager = record {
    create = create k cfg;
    get = get;
    delete = delete k;
    find_active_by_user = λ uid s. (find_active_by_user k uid s.cluster, s);
    count_active_sessions = λ s. (count_active_sessions k s.cluster, s);
    reap_stuck_sessions = reap_stuck_sessions;
    reap_expired_sessions = reap_expired_sessions;
    vmi_address = λ id s. (vmi_address k id s.cluster, s);
    capacity = cfg.max_active_sessions;
  }
