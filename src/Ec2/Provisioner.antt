-- ===== src/Ec2/Provisioner.antt =====
-- apps/api/internal/ec2/provisioner.go: the operations of the provisioner, and it as a provider.
use Prim.Native.String.{◌++◌}
use cledyu.Base.{
  ℕ, ◌+◌, ◌*◌, String, Bool, true, false, not, ◌||◌, List, [], ◌∷◌, Option, none, some, str_eq, ltb,
  if◌then◌else◌, length,
}
use cledyu.Session.{
  Err, not_found, other, Result, ok, err, Status, provisioning, ready, failed as failed_status,
  Session, ec2, BootInit, Provider,
}
use cledyu.Kubevirt.Boot.{Recorded, boot, lab_start, elapsed, State, time_or_zero}
use cledyu.Ec2.{
  Config, tag_managed_by, managed_value, tag_session_id, tag_user_id, tag_lab_id, tag_started_at,
  tag_expires_at, tag_boot_result_recorded, tag_tailnet, to_string, tag_value, is_running,
  instance_status, tailnet_hostname, session_tailnet_enabled, call, list_active,
  find_active_instance, terminate,
}
use cledyu.Ec2.Cloud.{Reply, got, failed, Instance, tag_is, RunInput, Services}

-- What a call of run_instances started.
abbrev pub no_instance : String
no_instance = "run instance: no instance returned"

-- A session only gets the key that is minted for it: no static key in its place where minting fails.
abbrev pub minted_key : Reply String → String
minted_key (got key) = key
minted_key (failed e) = ""

abbrev pub found {ℓ} :
    {A : Type ℓ} → (Instance → Result A) → Result A → Reply (Option Instance) → Result A
found f absent (failed e) = err (other e)
found f absent (got none) = absent
found f absent (got (some i)) = f i

abbrev pub counted : Reply (List Instance) → Result ℕ
counted (failed e) = err (other e)
counted (got l) = ok (length l)

abbrev pub no_error : Option Err → Bool
no_error none = true
no_error (some e) = false

abbrev pub has_lock : Reply Bool → Bool
has_lock (got b) = b
has_lock (failed e) = false

abbrev pub lock_key : Instance → String
lock_key i = "cledyu:lock:vm_boot:" ++ to_string i.instance_id

module _ {W : Type 0} (c : Services W) (cfg : Config) where
  unfoldable pub resolve_session_auth_key : State W → String × State W
  resolve_session_auth_key s =
      let (r, s') = call c.mint s in
      if cfg.mints then (minted_key r, s') else (cfg.tailscale_auth_key, s)

  unfoldable pub run_input : String → String → String → BootInit → String → ℕ → RunInput
  unfolding tailnet_hostname
  run_input sid lab uid init key now = record {
    launch_template = cfg.launch_template_id;
    version = "$Latest";
    min_count = 1;
    max_count = 1;
    user_data = record { session_id = sid; init = init; auth_key = key };
    tags =
        (tag_managed_by, managed_value)
        ∷ (tag_session_id, sid)
        ∷ (tag_user_id, uid)
        ∷ (tag_lab_id, lab)
        ∷ (tag_started_at, c.format_time now)
        ∷ (tag_expires_at, c.format_time (now + cfg.session_ttl_hours * 3600))
        ∷ (tag_tailnet, if str_eq key "" then "0" else "1")
        ∷ ("Name", tailnet_hostname cfg sid)
        ∷ [];
    instance_type = if str_eq cfg.instance_type "" then none else some cfg.instance_type;
  }

  unfoldable pub new_session : String → String → String → ℕ → Instance → Session
  new_session sid lab uid now i = record {
    id = sid;
    lab_id = lab;
    user_id = uid;
    status = provisioning;
    provisioning_stage = "";
    started_at = now;
    expires_at = now + cfg.session_ttl_hours * 3600;
    provider = ec2;
    instance_id = to_string i.instance_id;
    region = cfg.region;
    tailnet_enabled = false;
  }

  unfoldable pub created : String → String → String → ℕ → Reply (List Instance) → Result Session
  unfolding new_session
  created sid lab uid now (failed e) = err (other ("run instance: " ++ e))
  created sid lab uid now (got []) = err (other no_instance)
  created sid lab uid now (got (i ∷ l)) = ok (new_session sid lab uid now i)

  unfoldable pub create : String → String → String → BootInit → State W → Result Session × State W
  unfolding resolve_session_auth_key run_input created
  create sid lab uid init s =
      let now = c.now s.cluster in
      let (key, s1) = resolve_session_auth_key s in
      let (r, s2) = call (c.run_instances (run_input sid lab uid init key now)) s1 in
      (created sid lab uid now r, s2)

  unfoldable pub instance_to_session : Instance → Session
  unfolding session_tailnet_enabled
  instance_to_session i = record {
    id = tag_value i tag_session_id;
    lab_id = tag_value i tag_lab_id;
    user_id = tag_value i tag_user_id;
    status = instance_status i;
    provisioning_stage = "";
    started_at = time_or_zero (c.parse_time (tag_value i tag_started_at));
    expires_at = time_or_zero (c.parse_time (tag_value i tag_expires_at));
    provider = ec2;
    instance_id = to_string i.instance_id;
    region = cfg.region;
    tailnet_enabled = session_tailnet_enabled cfg i;
  }

  unfoldable pub record_result : String → Instance → W → List Recorded → List Recorded
  record_result result i w l =
      lab_start result "ec2" (if str_eq result "failed" then "timeout" else "ready")
        (elim (c.parse_time (tag_value i tag_started_at)) [
          | some t ↦ elapsed t (c.now w)
          | none ↦ none
        ])
      ∷ boot result "ec2"
      ∷ l

  -- The lock is given back only where the tag could not be written.
  unfoldable pub tag_written : String → Instance → Option String × State W → State W
  unfolding record_result
  tag_written result i (some t, s) = record {
    cluster = c.del (lock_key i) s.cluster;
    recorded = s.recorded;
  }
  tag_written result i (none, s) = record {
    cluster = s.cluster;
    recorded = record_result result i s.cluster s.recorded;
  }

  -- under the lock
  unfoldable pub tag_and_record : String → Instance → State W → State W
  unfolding tag_written
  tag_and_record result i s =
      tag_written result i
        (call (c.create_tags (to_string i.instance_id) tag_boot_result_recorded "true") s)

  unfoldable pub record_boot_once : Instance → String → State W → State W
  unfolding tag_and_record
  record_boot_once i result s =
      let (r, s') = call (c.set_nx (lock_key i)) s in
      if not cfg.records || not (str_eq (tag_value i tag_boot_result_recorded) "")
      then s
      else if has_lock r
      then tag_and_record result i s'
      else s'

  -- the first observation of a running instance is recorded
  unfoldable pub observed : Status → Instance → State W → State W
  unfolding record_boot_once
  observed ready i s = record_boot_once i "success" s
  observed provisioning i s = s
  observed failed_status i s = s

  unfoldable pub answered : State W → Reply (Option Instance) → Result Session × State W
  unfolding instance_to_session observed
  answered s (failed e) = (err (other e), s)
  answered s (got none) = (err not_found, s)
  answered s (got (some i)) = (ok (instance_to_session i), observed (instance_status i) i s)

  unfoldable pub get : String → State W → Result Session × State W
  unfolding answered
  get id s = answered s (find_active_instance c (tag_is tag_session_id id) s.cluster)

  unfoldable pub delete_found : State W → Reply (Option Instance) → Option Err × State W
  unfolding terminate
  delete_found s (failed e) = (some (other e), s)
  delete_found s (got none) = (some not_found, s)
  delete_found s (got (some i)) = terminate c (to_string i.instance_id) s

  unfoldable pub delete : String → State W → Option Err × State W
  unfolding delete_found
  delete id s = delete_found s (find_active_instance c (tag_is tag_session_id id) s.cluster)

  unfoldable pub find_active_by_user : String → W → Result String
  find_active_by_user uid w =
      if str_eq uid ""
      then ok ""
      else found (λ i. ok (tag_value i tag_session_id)) (ok "")
          (find_active_instance c (tag_is tag_user_id uid) w)

  unfoldable pub count_active_sessions : W → Result ℕ
  count_active_sessions w = counted (list_active c w)

  -- The tailnet decides for each session, not the present configuration.
  abbrev pub reachable_at : String → Instance → Result String
  reachable_at id i =
      if is_running i
      then if session_tailnet_enabled cfg i then ok (tailnet_hostname cfg id) else err not_found
      else err not_found

  unfoldable pub vmi_address : String → W → Result String
  unfolding session_tailnet_enabled tailnet_hostname
  vmi_address id w =
      found (reachable_at id) (err not_found) (find_active_instance c (tag_is tag_session_id id) w)

  -- the termination of a reaper: whether the instance counts as reaped
  unfoldable pub reap : Instance → State W → Bool × State W
  unfolding terminate
  reap i s = let (e, s') = terminate c (to_string i.instance_id) s in (no_error e, s')

  -- the loop bodies
  unfoldable pub reap_stuck_one : ℕ → ℕ → Instance → State W → Bool × State W
  unfolding record_boot_once reap
  reap_stuck_one now timeout i s =
      if is_running i then (false, s) else elim (c.parse_time (tag_value i tag_started_at)) [
        | none ↦ (false, s)
        | some t ↦
            if ltb now (t + timeout) then (false, s) else reap i (record_boot_once i "failed" s)
      ]

  unfoldable pub reap_expired_one : ℕ → Instance → State W → Bool × State W
  unfolding reap
  reap_expired_one now i s = elim (c.parse_time (tag_value i tag_expires_at)) [
    | none ↦ (false, s)
    | some t ↦ if ltb now t then (false, s) else reap i s
  ]

  unfoldable pub reap_each :
      (Instance → State W → Bool × State W) → List Instance → State W → List String × State W
  reap_each one [] s = ([], s)
  reap_each one (i ∷ l) s =
      let (hit, s1) = one i s in
      let (ids, s2) = reap_each one l s1 in
      (if hit then tag_value i tag_session_id ∷ ids else ids, s2)

  unfoldable pub reap_listed :
      (Instance → State W → Bool × State W) → State W → (List String × Option Err) × State W
  unfolding reap_each
  reap_listed one s = elim (list_active c s.cluster) [
    | failed e ↦ (([], some (other e)), s)
    | got l ↦ let (ids, s') = reap_each one l s in ((ids, none), s')
  ]

  unfoldable pub provisioner : Provider (State W)
  unfolding create get delete find_active_by_user count_active_sessions reap_stuck_one
      reap_expired_one reap_listed vmi_address
  provisioner = record {
    create = create;
    get = get;
    delete = delete;
    find_active_by_user = λ uid s. (find_active_by_user uid s.cluster, s);
    count_active_sessions = λ s. (count_active_sessions s.cluster, s);
    reap_stuck_sessions = λ timeout s. reap_listed (reap_stuck_one (c.now s.cluster) timeout) s;
    reap_expired_sessions = λ s. reap_listed (reap_expired_one (c.now s.cluster)) s;
    vmi_address = λ id s. (vmi_address id s.cluster, s);
    capacity = cfg.max_active_sessions;
  }
