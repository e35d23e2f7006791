-- ===== src/Lifecycle/Validate.antt =====
-- session.go: `ValidateStep`; ownership.go: `storeOwner`, `denyIfNotStoreOwner` and `ensureStepSession`.
-- The validator publishes over a state `K` of Kafka. The trace ID comes with the request; Redis, which
-- only measures, is left out.
use cledyu.Base.{
  ℕ, String, Bool, true, false, ◌&&◌, not, List, [], ◌∷◌, Option, none, some, GoMap, lookup, ltb,
  ◌==◌, length, str_eq, if◌then◌else◌,
}
use cledyu.Session.{not_found, other, Result, ok, err, Session, Provider}
use cledyu.Progress.{
  Precheck, step_at, session_not_found, step_not_found, order_blocked, find_validatable, initial,
  mark_step_validating, mark_step_passed,
}
use cledyu.Store.{Database, StoreState, with_session, put}
use cledyu.Lifecycle.{ApiState, store_of, deny_if_not_owner}
use cledyu.Lifecycle.Content.{
  LabContent, Step, ContentCheck, step_ids, find_content_step, ApiRequest, to_validation_checks,
  vm_spec_for_session,
}

pub data Verdict : Type 0 where
  step_id_required session_missing lab_missing recovery_failed : Verdict
  step_missing previous_step_first engine_unavailable passed_by_mock : Verdict
  not_configured load_failed content_missing no_checks publish_failed accepted : Verdict

-- `release` says that there is a configuration and its mode is release.
pub record Grader (V D K : Type 0) : Type 0 where
  pub sessions : Option (Provider V)
  pub db : Option (Database D)
  -- user, lab, session
  pub record_completion : String → String → String → D → D
  pub labs : GoMap LabContent
  pub release : Bool
  pub validator : Option (ApiRequest → K → Bool × K)

-- The step ID is none if the body has none.
pub record ValidateRequest : Type 0 where
  pub session_id : String
  pub user_id : String
  pub step_id : Option ℕ
  pub trace_id : String

abbrev pub is_nil : List ContentCheck → Bool
is_nil [] = true
is_nil (c ∷ cs) = false

abbrev pub request_of : ValidateRequest → ℕ → Session → Step → ApiRequest
request_of req step x content = record {
  trace_id = req.trace_id;
  session_id = req.session_id;
  step_id = step;
  vm = vm_spec_for_session x req.session_id;
  checks = to_validation_checks content.checks;
}

abbrev pub or_missing : Option Precheck → Precheck
or_missing none = session_not_found
or_missing (some c) = c

-- `denyIfNotStoreOwner`
abbrev pub denied_for : String → Option String → Bool
denied_for uid none = false
denied_for uid (some owner) = deny_if_not_owner uid owner

module _ {V D K : Type 0} (h : Grader V D K) where
  abbrev pub with_store :
      {A : Type 0} → (StoreState D → A × StoreState D) → ApiState V D → A × ApiState V D
  with_store f s = let (a, st) = f (store_of s) in (a, (s.0, (st, s.1.1)))

  -- `storeOwner`
  abbrev pub store_owner : String → ApiState V D → Option String × ApiState V D
  store_owner id s = with_store (with_session h.db id (λ ss. ((ss, ss.user_id), false))) s

  abbrev put_recovered :
      String → Session → Option LabContent → ApiState V D → Option Verdict × ApiState V D
  put_recovered id x none s = (some lab_missing, s)
  put_recovered id x (some lc) s =
      let (b, s') = with_store (put h.db id (initial x.lab_id x.user_id (step_ids lc))) s in
      (if b then none else some recovery_failed, s')

  abbrev recover : String → String → Result Session → ApiState V D → Option Verdict × ApiState V D
  recover uid id (err not_found) s = (some session_missing, s)
  recover uid id (err (other _)) s = (some recovery_failed, s)
  recover uid id (ok x) s =
      if deny_if_not_owner uid x.user_id
      then (some session_missing, s)
      else put_recovered id x (lookup x.lab_id h.labs) s

  abbrev find_session :
      Option (Database D)
      → Option (Provider V)
      → String
      → String
      → ApiState V D
      → Option Verdict × ApiState V D
  find_session (some d) sessions uid id s = (some session_missing, s)
  find_session none none uid id s = (some session_missing, s)
  find_session none (some p) uid id s = let (r, v) = p.get id s.0 in recover uid id r (v, s.1)

  abbrev pub ensured :
      String → String → Option String × ApiState V D → Option Verdict × ApiState V D
  ensured uid id (some owner, s) = (none, s)
  ensured uid id (none, s) = find_session h.db h.sessions uid id s

  -- `ensureStepSession`: none if the request can go on.
  unfoldable pub ensure_step_session :
      String → String → ApiState V D → Option Verdict × ApiState V D
  unfolding deny_if_not_owner with_session
  ensure_step_session uid id s = ensured uid id (store_owner id s)

  -- `findValidatableStepIndex`
  abbrev pub gate : String → ℕ → ApiState V D → Precheck × ApiState V D
  gate id step s =
      let (o, s') =
        with_store (with_session h.db id (λ ss. ((ss, find_validatable step ss), false))) s in
      (or_missing o, s')

  -- `recordLabCompletion`
  abbrev record_lab : String → Option (Option (String × String)) → D → D
  record_lab id none w = w
  record_lab id (some none) w = w
  record_lab id (some (some (uid, lab))) w =
      if not (str_eq lab "") && not (str_eq uid "")
      then (elim h.db [ none ↦ w | some d ↦ h.record_completion uid lab id w ])
      else w

  -- Without an engine: `markStepPassed`, outside release mode.
  abbrev pub mock_pass : String → ℕ → ApiState V D → Verdict × ApiState V D
  mock_pass id i s =
      if h.release
      then (engine_unavailable, s)
      else (let (o, s') =
            with_store
              (with_session h.db id (λ ss. ((mark_step_passed i ss), ltb i (length ss.steps)))) s in
          (passed_by_mock, (s'.0, (((store_of s').0, record_lab id o (store_of s').1), s'.1.1))))

  -- `markStepValidating`, behind the publication.
  abbrev pub published : String → ℕ → Bool → ApiState V D × K → Verdict × (ApiState V D × K)
  published id i false s = (publish_failed, s)
  published id i true s =
      let (o, s') =
        with_store
          (with_session h.db id
            (λ ss. ((mark_step_validating i ss, tt {0}), ltb i (length ss.steps))))
          s.0 in
      (accepted, (s', s.1))

  abbrev pub publish_step :
      (ApiRequest → K → Bool × K)
      → ValidateRequest
      → ℕ
      → ℕ
      → Session
      → Option Step
      → ApiState V D × K
      → Verdict × (ApiState V D × K)
  publish_step publish req step i x none s = (content_missing, s)
  publish_step publish req step i x (some content) s =
      if is_nil content.checks
      then (no_checks, s)
      else (let (b, k) = publish (request_of req step x content) s.1 in
          published req.session_id i b (s.0, k))

  abbrev pub with_content :
      (ApiRequest → K → Bool × K)
      → ValidateRequest
      → ℕ
      → ℕ
      → Session
      → Option LabContent
      → ApiState V D × K
      → Verdict × (ApiState V D × K)
  with_content publish req step i x none s = (lab_missing, s)
  with_content publish req step i x (some lc) s =
      publish_step publish req step i x (find_content_step lc.steps step) s

  abbrev pub with_loaded :
      (ApiRequest → K → Bool × K)
      → ValidateRequest
      → ℕ
      → ℕ
      → Result Session
      → ApiState V D × K
      → Verdict × (ApiState V D × K)
  with_loaded publish req step i (err not_found) s = (session_missing, s)
  with_loaded publish req step i (err (other _)) s = (load_failed, s)
  with_loaded publish req step i (ok x) s =
      with_content publish req step i x (lookup x.lab_id h.labs) s

  abbrev pub ask_engine :
      Option (ApiRequest → K → Bool × K)
      → Option (Provider V)
      → ValidateRequest
      → ℕ
      → ℕ
      → ApiState V D × K
      → Verdict × (ApiState V D × K)
  ask_engine none sessions req step i s =
      let (a, s') = mock_pass req.session_id i s.0 in (a, (s', s.1))
  ask_engine (some publish) none req step i s = (not_configured, s)
  ask_engine (some publish) (some p) req step i s =
      let (r, v) = p.get req.session_id s.0.0 in with_loaded publish req step i r ((v, s.0.1), s.1)

  abbrev pub checked :
      ValidateRequest → ℕ → Precheck → ApiState V D × K → Verdict × (ApiState V D × K)
  checked req step session_not_found s = (session_missing, s)
  checked req step step_not_found s = (step_missing, s)
  checked req step order_blocked s = (previous_step_first, s)
  checked req step (step_at i) s = ask_engine h.validator h.sessions req step i s

  abbrev pub owned_only :
      ValidateRequest → ℕ → Option String × ApiState V D → K → Verdict × (ApiState V D × K)
  owned_only req step (o, s) k =
      if denied_for req.user_id o
      then (session_missing, (s, k))
      else (let (c, s') = gate req.session_id step s in checked req step c (s', k))

  abbrev pub when_ensured :
      ValidateRequest → ℕ → Option Verdict × ApiState V D → K → Verdict × (ApiState V D × K)
  when_ensured req step (some a, s) k = (a, (s, k))
  when_ensured req step (none, s) k = owned_only req step (store_owner req.session_id s) k

  abbrev pub with_step :
      ValidateRequest → Option ℕ → ApiState V D × K → Verdict × (ApiState V D × K)
  with_step req none s = (step_id_required, s)
  with_step req (some step) s =
      if step == 0
      then (step_id_required, s)
      else when_ensured req step (ensure_step_session req.user_id req.session_id s.0) s.1

  -- `ValidateStep`
  unfoldable pub validate_step : ValidateRequest → ApiState V D × K → Verdict × (ApiState V D × K)
  unfolding ensure_step_session
  validate_step req s = with_step req req.step_id s
