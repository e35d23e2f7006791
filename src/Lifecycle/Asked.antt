-- ===== src/Lifecycle/Asked.antt =====
-- session.go: what `ValidateStep` asks of the engine, and when.
use cledyu.Base.{
  ℕ, String, ◌≡◌, ◌≢◌, refl, sym, subst, ap, ◌∙◌, Bool, true, false, ◌⊎◌, inl, inr, List, [], ◌∷◌,
  Option, none, some, lookup, lookup-insert, ◌==◌, str_eq_refl, Bool-cases,
}
use cledyu.Session.{not_found, other, Result, ok, err, Session, Provider}
use cledyu.Progress.{
  SessionSteps, Precheck, step_at, session_not_found, step_not_found, order_blocked,
  find_validatable,
}
use cledyu.Store.{Database, StoreState, fetch, with_session}
use cledyu.Lifecycle.{ApiState, store_of, deny_if_not_owner}
use cledyu.Lifecycle.Content.{
  LabContent, Step, ContentCheck, find_content_step, ApiRequest, to_validation_checks,
}
use cledyu.Lifecycle.Validate.{
  Grader, ValidateRequest, is_nil, store_owner, gate, published, request_of, publish_step,
  with_content, with_loaded, ask_engine, checked, denied_for, or_missing, owned_only, when_ensured,
  ensured, ensure_step_session, with_step, validate_step,
}

module _ {D : Type 0} where
  -- A look at a session that is in the cache.
  look-cached :
      {A : Type 0} (db : Option (Database D)) (id : String) (f : SessionSteps → A)
      (s : StoreState D) (ss : SessionSteps)
      → lookup id s.0 ≡ some ss
      → ((with_session db id (λ x. ((x, f x), false)) s).0 ≡ some (f ss))
        × (lookup id (with_session db id (λ x. ((x, f x), false)) s).1.0 ≡ some ss)
  unfolding with_session fetch
  look-cached db id f s ss e = rw e (refl, rw (lookup-insert id id ss s.0, str_eq_refl id) refl)

nil-cases :
    (cs : List ContentCheck)
    → (is_nil cs ≡ true) ⊎ ((is_nil cs ≡ false) × (to_validation_checks cs ≢ []))
nil-cases [] = inl refl
nil-cases (c ∷ cs) = inr (refl, λ e. cc)

module _ {V D : Type 0} (h : Grader V D (List ApiRequest)) (answers : ApiRequest → Bool)
    (req : ValidateRequest) (step : ℕ) (ss : SessionSteps) where
  abbrev keep : ApiRequest → List ApiRequest → Bool × List ApiRequest
  keep r k = (answers r, r ∷ k)

  -- Nothing is asked, or one request for this step, which passes the gate and has checks, by a user who
  -- is not kept out.
  abbrev pub Asked : List ApiRequest → List ApiRequest → Type 0
  Asked k k' =
      (k' ≡ k)
      ⊎ ((i : ℕ) × (msg : ApiRequest) × (k' ≡ msg ∷ k)
          × (find_validatable step ss ≡ step_at i)
          × (deny_if_not_owner req.user_id ss.user_id ≡ false)
          × (msg.session_id ≡ req.session_id)
          × (msg.step_id ≡ step)
          × (msg.checks ≢ []))

  published-log :
      (id : String) (i : ℕ) (b : Bool) (s : ApiState V D × List ApiRequest)
      → (published h id i b s).1.1 ≡ s.1
  published-log id i true s = refl
  published-log id i false s = refl

  module _ (i : ℕ) (g : find_validatable step ss ≡ step_at i)
      (n : deny_if_not_owner req.user_id ss.user_id ≡ false) where
    publish-Asked :
        (x : Session) (o : Option Step) (s : ApiState V D × List ApiRequest)
        → Asked s.1 (publish_step h keep req step i x o s).1.1
    publish-Asked x none s = inl refl
    publish-Asked x (some c) s = elim (nil-cases c.checks) [
      | inl e ↦ rw e (inl refl)
      | inr (e, some_checks) ↦ rw e (
          inr (
            i,
            request_of req step x c,
            published-log req.session_id i _ _,
            g,
            n,
            refl,
            refl,
            some_checks,
          ))
    ]

    content-Asked :
        (x : Session) (o : Option LabContent) (s : ApiState V D × List ApiRequest)
        → Asked s.1 (with_content h keep req step i x o s).1.1
    content-Asked x none s = inl refl
    content-Asked x (some lc) s = publish-Asked x (find_content_step lc.steps step) s

    loaded-Asked :
        (r : Result Session) (s : ApiState V D × List ApiRequest)
        → Asked s.1 (with_loaded h keep req step i r s).1.1
    loaded-Asked (err not_found) s = inl refl
    loaded-Asked (err (other e)) s = inl refl
    loaded-Asked (ok x) s = content-Asked x (lookup x.lab_id h.labs) s

    engine-Asked :
        (sessions : Option (Provider V)) (s : ApiState V D × List ApiRequest)
        → Asked s.1 (ask_engine h (some keep) sessions req step i s).1.1
    engine-Asked none s = inl refl
    engine-Asked (some p) s = loaded-Asked _ _

  module _ (keeps : h.validator ≡ some keep) where
    checked-Asked :
        (c : Precheck) (s : ApiState V D × List ApiRequest)
        → find_validatable step ss ≡ c
        → deny_if_not_owner req.user_id ss.user_id ≡ false
        → Asked s.1 (checked h req step c s).1.1
    checked-Asked session_not_found s g n = inl refl
    checked-Asked step_not_found s g n = inl refl
    checked-Asked order_blocked s g n = inl refl
    checked-Asked (step_at i) s g n = rw keeps (engine-Asked i g n h.sessions s)

    owned-Asked :
        (o : Option String) (s : ApiState V D) (k : List ApiRequest)
        → o ≡ some ss.user_id
        → lookup req.session_id (store_of s).0 ≡ some ss
        → Asked k (owned_only h req step (o, s) k).1.1
    owned-Asked o s k e c = elim (Bool-cases (deny_if_not_owner req.user_id ss.user_id)) [
      | inl b ↦ rw (e, b) (inl refl)
      | inr b ↦
          let (a, _) =
            look-cached h.db req.session_id (λ x. find_validatable step x) (store_of s) ss c in
          subst (λ r. Asked k r.1.1) (sym (let_in o s k (ap (denied_for req.user_id) e ∙ b)))
            (checked-Asked (gate h req.session_id step s).0 _ (sym (ap or_missing a)) b)
    ]
      where
        let_in :
            (o : Option String) (s : ApiState V D) (k : List ApiRequest)
            → denied_for req.user_id o ≡ false
            → owned_only h req step (o, s) k
              ≡ checked h req step
                  (gate h req.session_id step s).0
                  ((gate h req.session_id step s).1, k)
        let_in o s k b = rw b refl

    ensured-Asked :
        (o : Option String) (s : ApiState V D) (k : List ApiRequest)
        → o ≡ some ss.user_id
        → lookup req.session_id (store_of s).0 ≡ some ss
        → Asked k (when_ensured h req step (ensured h req.user_id req.session_id (o, s)) k).1.1
    ensured-Asked none s k e c = cc
    ensured-Asked (some owner) s k e c =
        let (a, c') = look-cached h.db req.session_id (λ x. x.user_id) (store_of s) ss c in
        owned-Asked (store_owner h req.session_id s).0 (store_owner h req.session_id s).1 k a c'

    step-Asked :
        (s : ApiState V D × List ApiRequest)
        → lookup req.session_id (store_of s.0).0 ≡ some ss
        → Asked s.1 (with_step h req (some step) s).1.1
    unfolding ensure_step_session
    step-Asked s c = elim (Bool-cases (step == 0)) [
      | inl b ↦ rw b (inl refl)
      | inr b ↦
          let (a, c') = look-cached h.db req.session_id (λ x. x.user_id) (store_of s.0) ss c in
          subst (λ r. Asked s.1 r.1.1) (sym (past_zero b))
            (ensured-Asked (store_owner h req.session_id s.0).0 (store_owner h req.session_id s.0).1
              s.1 a c')
    ]
      where
        past_zero :
            (step == 0) ≡ false
            → with_step h req (some step) s
              ≡ when_ensured h req step
                  (ensured h req.user_id req.session_id (store_owner h req.session_id s.0))
                  s.1
        past_zero b = rw b refl

    -- Where the session's record is in the cache: `ValidateStep` asks nothing of the engine, or it
    -- publishes one request, with checks, for this session and for this step, which the order gate lets
    -- through, and only for a user whom the owner check does not turn down.
    pub validate_step-Asked :
        (s : ApiState V D × List ApiRequest)
        → req.step_id ≡ some step
        → lookup req.session_id (store_of s.0).0 ≡ some ss
        → Asked s.1 (validate_step h req s).1.1
    unfolding validate_step
    validate_step-Asked s e c =
        subst (λ o. Asked s.1 (with_step h req o s).1.1) (sym e) (step-Asked s c)
