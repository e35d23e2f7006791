-- ===== src/Ec2/Samples.antt =====
-- A small account in memory, and instances of the theorems.
use cledyu.Base.{
  String, ◌≡◌, refl, true, false, List, [], ◌∷◌, ◌++◌, Option, none, some, str_eq, codes, keep,
}
use cledyu.Session.{ok}
use cledyu.Session.Samples.{no_init}
use cledyu.Kubevirt.Boot.{State}
use cledyu.Ec2.{Config, find_tag, describe, session_tailnet_enabled}
use cledyu.Ec2.Cloud.{Reply, got, failed, Instance, RunInput, Services}
use cledyu.Ec2.Provisioner.{
  get, vmi_address, run_input, resolve_session_auth_key, instance_to_session,
}
use cledyu.Ec2.Laws.{matches, launched, stopped, tagged}
use cledyu.Ec2.Tailnet.{run_input-fail_secure}
use cledyu.Ec2.CloudInit.{Text, yaml_scalar, read_scalar, read_scalar-yaml_scalar}

-- At most one instance, which keeps its ID.
abbrev Slot : Type 0
Slot = Option Instance

abbrev pub in_slot : Slot → List Instance
in_slot none = []
in_slot (some i) = i ∷ []

abbrev pub on_slot : (Instance → Instance) → Slot → Slot
on_slot f none = none
on_slot f (some i) = some (f i)

abbrev pub run_in : RunInput → Slot → Reply (List Instance) × Slot
run_in r none = (got (launched r "i-1" ∷ []), some (launched r "i-1"))
run_in r (some i) = (failed "limit", some i)

abbrev pub account : Services Slot
account = record {
  run_instances = run_in;
  pages = λ fs w. got (keep (matches fs) (in_slot w) ∷ []) ∷ [];
  terminate_instances = λ id w. (none, on_slot (stopped id) w);
  create_tags = λ id k v w. (none, on_slot (tagged id k v) w);
  set_nx = λ key w. (got true, w);
  del = λ key w. w;
  mint = λ w. (failed "denied", w);
  now = λ w. 5000;
  format_time = λ t. "100";
  parse_time = λ s. some 100;
}

abbrev config : Config
config = record {
  region = "ap-northeast-2";
  launch_template_id = "lt-1";
  instance_type = "";
  session_ttl_hours = 4;
  max_active_sessions = 5;
  tailscale_auth_key = "static";
  tailnet_hostname_prefix = "";
  mints = true;
  records = true;
}

run_input-fail_secure_example :
    let s : State Slot = record { cluster = none; recorded = [] } in
    let key : String = (resolve_session_auth_key account config s).0 in
    (run_input account config "a1" "lab" "u1" no_init key 5000).user_data.auth_key ≡ ""
    × ((iid : String)
        → session_tailnet_enabled config
            (launched (run_input account config "a1" "lab" "u1" no_init key 5000) iid)
          ≡ false)
run_input-fail_secure_example =
    run_input-fail_secure account config "a1" "lab" "u1" "denied" no_init 5000
      (record { cluster = none; recorded = [] }) refl refl

-- A running instance that has joined the tailnet.
abbrev joined_instance : Instance
joined_instance = record {
  instance_id = some "i-1";
  state = some "running";
  tags =
      record { key = some "cledyu.io/managed-by"; value = some "cledyu-session" }
      ∷ record { key = some "cledyu.io/session-id"; value = some "a1" }
      ∷ record { key = some "cledyu.io/tailnet"; value = some "1" }
      ∷ [];
}

abbrev running : State Slot
running = record { cluster = some joined_instance; recorded = [] }

got_session :
    (get account config "a1" running).0 ≡ ok (instance_to_session account config joined_instance)
unfolding get find_tag str_eq describe
got_session = refl

reached : vmi_address account config "a1" running.cluster ≡ ok "lab-a1"
unfolding vmi_address find_tag str_eq describe
reached = refl

-- A command with a quote, a backslash and a colon.
abbrev a_command : Text
a_command = codes "echo \"a\\b: c\""

read_scalar-yaml_scalar_example :
    read_scalar (yaml_scalar a_command ++ codes "\n  - true") ≡ some (a_command, codes "\n  - true")
read_scalar-yaml_scalar_example = read_scalar-yaml_scalar a_command (codes "\n  - true") (
  refl,
  (
    refl,
    (refl, (refl, (refl, (refl, (refl, (refl, (refl, (refl, (refl, (refl, (refl, tt))))))))))),
  ),
)
