-- ===== src/Ec2.antt =====
-- apps/api/internal/ec2/provisioner.go: the overflow VM provider, over the EC2 API. A session is an
-- instance that carries its metadata as tags.
pub mod Cloud
pub mod Provisioner
pub mod Laws
pub mod Tailnet
pub mod CloudInit
pub mod Samples
use Prim.Native.String.{◌++◌ as concat}
use cledyu.Base.{
  ℕ, ◌+◌, ◌*◌, ◌-◌, String, Bool, true, false, not, ◌&&◌, List, [], ◌∷◌, ◌++◌, Option, none, some,
  str_eq, ltb, ◌==◌, if◌then◌else◌, length,
}
use cledyu.Session.{
  Err, not_found, other, Result, ok, err, Status, provisioning, ready, failed as failed_status,
  Session, ec2, BootInit,
}
use cledyu.Kubevirt.Boot.{Recorded, boot, lab_start, State, time_or_zero}
use cledyu.Ec2.Cloud.{
  Reply, got, failed, Tag, Instance, Filter, tag_is, state_in, UserData, RunInput, Services,
}

pub record Config : Type 0 where
  pub region : String
  pub launch_template_id : String
  pub instance_type : String
  pub session_ttl_hours : ℕ
  pub max_active_sessions : ℕ
  pub tailscale_auth_key : String
  pub tailnet_hostname_prefix : String
  -- a minter of session keys is there
  pub mints : Bool
  -- the recorder and Redis are there
  pub records : Bool

abbrev pub tag_managed_by : String
tag_managed_by = "cledyu.io/managed-by"

abbrev pub managed_value : String
managed_value = "cledyu-session"

abbrev pub tag_session_id : String
tag_session_id = "cledyu.io/session-id"

abbrev pub tag_user_id : String
tag_user_id = "cledyu.io/user-id"

abbrev pub tag_lab_id : String
tag_lab_id = "cledyu.io/lab-id"

abbrev pub tag_started_at : String
tag_started_at = "cledyu.io/started-at"

abbrev pub tag_expires_at : String
tag_expires_at = "cledyu.io/expires-at"

abbrev pub tag_boot_result_recorded : String
tag_boot_result_recorded = "cledyu.io/boot-result-recorded"

abbrev pub tag_tailnet : String
tag_tailnet = "cledyu.io/tailnet"

-- aws.ToString
abbrev pub to_string : Option String → String
to_string (some s) = s
to_string none = ""

unfoldable pub find_tag : String → List Tag → Option String
find_tag k [] = none
find_tag k (t ∷ l) =
    let rest = find_tag k l in if str_eq (to_string t.key) k then some (to_string t.value) else rest

abbrev pub tag_lookup : Instance → String → Option String
tag_lookup i k = find_tag k i.tags

abbrev pub tag_value : Instance → String → String
tag_value i k = to_string (tag_lookup i k)

-- by the name of inst.State
abbrev pub is_running : Instance → Bool
is_running i = elim i.state [ some n ↦ str_eq n "running" | none ↦ false ]

unfoldable pub state_status : Option String → Status
state_status none = provisioning
state_status (some n) =
    if str_eq n "running" then ready else if str_eq n "pending" then provisioning else failed_status

abbrev pub instance_status : Instance → Status
instance_status i = state_status i.state

abbrev pub active_state_filter : Filter
active_state_filter = state_in ("pending" ∷ "running" ∷ [])

abbrev pub managed_filter : Filter
managed_filter = tag_is tag_managed_by managed_value

unfoldable pub join_all : List (List Instance) → List Instance
join_all [] = []
join_all (r ∷ l) = r ++ join_all l

unfoldable pub prepend : List (List Instance) → Reply (List Instance) → Reply (List Instance)
unfolding join_all
prepend r (got l) = got (join_all r ++ l)
prepend r (failed e) = failed e

-- the loop over the pages, which ends at the first error
unfoldable pub collect : List (Reply (List (List Instance))) → Reply (List Instance)
unfolding prepend
collect [] = got []
collect (failed e ∷ l) = failed (concat "describe instances: " e)
collect (got r ∷ l) = prepend r (collect l)

abbrev pub head? : List Instance → Option Instance
head? [] = none
head? (i ∷ l) = some i

abbrev pub first : Reply (List Instance) → Reply (Option Instance)
first (got l) = got (head? l)
first (failed e) = failed e

unfoldable pub tailnet_hostname : Config → String → String
tailnet_hostname cfg id =
    concat (if str_eq cfg.tailnet_hostname_prefix "" then "lab" else cfg.tailnet_hostname_prefix)
      (concat "-" id)

-- The tag of the instance decides; without one, an instance of an older version, the static key.
unfoldable pub session_tailnet_enabled : Config → Instance → Bool
session_tailnet_enabled cfg i = elim (tag_lookup i tag_tailnet) [
  | some v ↦ str_eq v "1"
  | none ↦ not (str_eq cfg.tailscale_auth_key "")
]

abbrev pub terminate_error : String → Option String → Option Err
terminate_error id none = none
terminate_error id (some t) =
    some (other (concat "terminate instance " (concat id (concat ": " t))))

module _ {W : Type 0} where
  -- a call of the API: nothing is recorded
  abbrev pub call {ℓ} : {A : Type ℓ} → (W → A × W) → State W → A × State W
  call f s = let (a, w) = f s.cluster in (a, record { cluster = w; recorded = s.recorded })

module _ {W : Type 0} (c : Services W) where
  unfoldable pub describe : List Filter → W → Reply (List Instance)
  unfolding collect
  describe filters w = collect (c.pages filters w)

  abbrev pub list_active : W → Reply (List Instance)
  list_active = describe (managed_filter ∷ active_state_filter ∷ [])

  abbrev pub find_active_instance : Filter → W → Reply (Option Instance)
  find_active_instance extra w =
      first (describe (managed_filter ∷ active_state_filter ∷ extra ∷ []) w)

  unfoldable pub terminate : String → State W → Option Err × State W
  terminate id s = let (e, s') = call (c.terminate_instances id) s in (terminate_error id e, s')
