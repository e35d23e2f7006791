-- ===== src/Lifecycle/Create.antt =====
-- session.go: `CreateSession`, in the stages that its early returns make of it. The lock's answer, the
-- random ID and the time come with the request.
use cledyu.Base.{
  ℕ, String, Bool, true, false, Option, none, some, GoMap, lookup, leb, ◌==◌, str_eq, if◌then◌else◌,
}
use cledyu.Session.{
  Err, not_found, other, Result, ok, err, Session, ProviderKind, kubevirt, ec2, Provider,
}
use cledyu.Progress.{Event, lab_started, initial}
use cledyu.Store.{Database, put, completed}
use cledyu.Lifecycle.{
  Reply, not_configured, bad_request, no_lab, subscription_needed, entitlement_error, locked,
  prepare_failed, replace_failed, session_exists, count_failed, capacity_reached, progress_failed,
  create_failed, created, ApiState, session_response, store_of, remove, emit,
  prepare_session_creation,
}
use cledyu.Lifecycle.Content.{LabContent, step_ids}
use cledyu.Lifecycle.Entitlement.{
  Entitlement, entitled, subscription_required, lookup_failed, Subscription, ensure_lab_entitlement,
}

pub record Api (V D : Type 0) : Type 0 where
  pub sessions : Option (Provider V)
  pub db : Option (Database D)
  pub get_subscription : Option (String → D → Result (Option Subscription) × D)
  pub labs : GoMap LabContent
  pub release : Bool

pub record CreateRequest : Type 0 where
  -- none if the body has no lab
  pub lab_id : Option String
  pub user_id : String
  pub acquired : Bool
  pub new_id : String
  pub now : ℕ

-- A stage ends the request with a reply or goes on with a value.
pub data Stage (A : Type 0) : Type 0 where
  stop : Reply → Stage A
  go : A → Stage A

abbrev provider_name : ProviderKind → String
provider_name kubevirt = "kubevirt"
provider_name ec2 = "ec2"

abbrev started : String → String → Session → Event
started uid lab x = record {
  type = lab_started;
  user_id = uid;
  session_id = x.id;
  lab_id = lab;
  step_id = 0;
  hint_level = 0;
  hint_source = "";
  vm_provider = provider_name x.provider;
}

module _ {V D : Type 0} (db : Option (Database D)) (p : Provider V) where
  abbrev pub replaced : String → Option Err → ApiState V D → Stage Unit × ApiState V D
  replaced id none s = (go tt, remove db id s)
  replaced id (some not_found) s = (go tt, remove db id s)
  replaced id (some (other _)) s = (stop replace_failed, s)

  -- A completed session makes room for the new one.
  abbrev pub replace : String → Bool → ApiState V D → Stage Unit × ApiState V D
  replace id true s = let (e, v) = p.delete id s.0 in replaced id e (v, s.1)
  replace id false s = (stop (session_exists id), s)

  abbrev pub keep_existing : String → ApiState V D → Stage Unit × ApiState V D
  keep_existing id s =
      if str_eq id ""
      then (go tt, s)
      else (let (b, st) = completed db id (store_of s) in replace id b (s.0, (st, s.1.1)))

  abbrev forget : String → ApiState V D → ApiState V D
  forget id s = if str_eq id "" then s else remove db id s

  abbrev pub prepared : Result (String × String) → ApiState V D → Stage Unit × ApiState V D
  prepared (err e) s = (stop prepare_failed, s)
  prepared (ok (existing, cleaned)) s = keep_existing existing (forget cleaned s)

  -- One session at a time for a user that is known.
  unfoldable pub single_session : CreateRequest → ApiState V D → Stage Unit × ApiState V D
  single_session req s =
      if str_eq req.user_id ""
      then (go tt, s)
      else if req.acquired
      then (let (r, v) = prepare_session_creation p req.user_id s.0 in prepared r (v, s.1))
      else (stop locked, s)

  abbrev pub counted : Result ℕ → Stage Unit
  counted (err e) = stop count_failed
  counted (ok n) = if leb p.capacity n then stop capacity_reached else go tt

  -- The quota; a capacity of 0 is none.
  unfoldable pub check_capacity : ApiState V D → Stage Unit × ApiState V D
  check_capacity s =
      if p.capacity == 0
      then (go tt, s)
      else (let (r, v) = p.count_active_sessions s.0 in (counted r, (v, s.1)))

  abbrev pub provisioned :
      CreateRequest → String → Result Session → ApiState V D → Reply × ApiState V D
  provisioned req lab (err e) s = (create_failed, remove db req.new_id s)
  provisioned req lab (ok x) s =
      session_response db created x (emit db (started req.user_id lab x) s)

  -- The progress first, then the VM.
  unfoldable pub provision :
      CreateRequest → String → LabContent → ApiState V D → Reply × ApiState V D
  provision req lab lc s =
      let (b, st) = put db req.new_id (initial lab req.user_id (step_ids lc)) (store_of s) in
      if b
      then (let (r, v) = p.create req.new_id lab req.user_id lc.init s.0 in
          provisioned req lab r (v, (st, s.1.1)))
      else (progress_failed, (s.0, (st, s.1.1)))

  abbrev pub after_capacity :
      CreateRequest → String → LabContent → Stage Unit × ApiState V D → Reply × ApiState V D
  after_capacity req lab lc (stop r, s) = (r, s)
  after_capacity req lab lc (go _, s) = provision req lab lc s

  abbrev pub after_single :
      CreateRequest → String → LabContent → Stage Unit × ApiState V D → Reply × ApiState V D
  after_single req lab lc (stop r, s) = (r, s)
  after_single req lab lc (go _, s) = after_capacity req lab lc (check_capacity s)

  abbrev pub after_entitlement :
      CreateRequest → String → LabContent → Entitlement → ApiState V D → Reply × ApiState V D
  after_entitlement req lab lc entitled s = after_single req lab lc (single_session req s)
  after_entitlement req lab lc subscription_required s = (subscription_needed, s)
  after_entitlement req lab lc lookup_failed s = (entitlement_error, s)

module _ {V D : Type 0} (api : Api V D) where
  abbrev pub with_lab :
      Provider V → CreateRequest → String → Option LabContent → ApiState V D → Reply × ApiState V D
  with_lab p req lab none s = (no_lab, s)
  with_lab p req lab (some lc) s =
      let (e, w) =
        ensure_lab_entitlement api.release api.get_subscription req.user_id lc.difficulty req.now
          (store_of s).1 in
      after_entitlement api.db p req lab lc e (s.0, (((store_of s).0, w), s.1.1))

  abbrev pub with_body :
      Provider V → CreateRequest → Option String → ApiState V D → Reply × ApiState V D
  with_body p req none s = (bad_request, s)
  with_body p req (some lab) s = with_lab p req lab (lookup lab api.labs) s

  -- `CreateSession`
  unfoldable pub create_session : CreateRequest → ApiState V D → Reply × ApiState V D
  unfolding single_session check_capacity provision ensure_lab_entitlement
  create_session req s = elim api.sessions [
    | none ↦ (not_configured, s)
    | some p ↦ with_body p req req.lab_id s
  ]
