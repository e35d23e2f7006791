-- ===== src/Lifecycle/Backed.antt =====
-- session.go: `CreateSession` writes the progress before it asks for a VM, and takes it back if it gets
-- none.
use cledyu.Base.{
  ℕ, String, ◌≡◌, refl, ap, ◌∙◌, Bool, true, false, inl, inr, Option, none, some, leb, ◌==◌, GoMap,
  lookup, lookup-insert, lookup-erase, str_eq, str_eq_iff, str_eq_refl, if◌then◌else◌, Bool-cases,
  Option-cases,
}
use cledyu.Session.{Err, not_found, other, Result, ok, err, Session, Provider}
use cledyu.Progress.{SessionSteps, initial}
use cledyu.Store.{SessionProgress, Database, StoreState, with_session, put, take, to_store_progress}
use cledyu.Store.View.{Rows, view, seen, with_session-view, next_of}
use cledyu.Store.Calls.{Reliable}
use cledyu.Lifecycle.{Reply, created, create_failed, ApiState, store_of}
use cledyu.Lifecycle.Entitlement.{
  Entitlement, entitled, subscription_required, lookup_failed, ensure_lab_entitlement,
}
use cledyu.Lifecycle.Content.{LabContent, step_ids}
use cledyu.Lifecycle.Create.{
  Api, CreateRequest, Stage, stop, go, replaced, replace, keep_existing, prepared, counted,
  single_session, check_capacity, provisioned, provision, after_capacity, after_single,
  after_entitlement, with_lab, with_body, create_session,
}

abbrev pub look : SessionSteps → (SessionSteps × ℕ) × Bool
look ss = ((ss, ss.current_step), false)

next_of-look : (o : Option SessionSteps) → next_of look o ≡ o
next_of-look none = refl
next_of-look (some ss) = refl

looked :
    (f : String → Option SessionSteps) (id j : String)
    → (if str_eq id j then next_of look (f id) else f j) ≡ f j
looked f id j = elim (Bool-cases (str_eq id j)) [
  | inl b ↦ rw b (next_of-look (f id) ∙ ap f ((str_eq_iff id j).0 b))
  | inr b ↦ rw b refl
]

-- A reply that neither creates nor fails at the provider, and a stage that stops with such a one.
abbrev Quiet : Reply → Type 0
Quiet (created x n) = ⊥
Quiet create_failed = ⊥
Quiet r = Unit {0}

abbrev Stopped : {A : Type 0} → Stage A → Type 0
Stopped (stop r) = Quiet r
Stopped (go a) = Unit {0}

module _ {V D : Type 0} (db : Option (Database D)) (p : Provider V) where
  replaced-Stopped :
      (id : String) (e : Option Err) (s : ApiState V D) → Stopped (replaced db p id e s).0
  replaced-Stopped id none s = tt
  replaced-Stopped id (some not_found) s = tt
  replaced-Stopped id (some (other e)) s = tt

  replace-Stopped : (id : String) (b : Bool) (s : ApiState V D) → Stopped (replace db p id b s).0
  replace-Stopped id true s = replaced-Stopped id _ _
  replace-Stopped id false s = tt

  keep-Stopped : (id : String) (s : ApiState V D) → Stopped (keep_existing db p id s).0
  keep-Stopped id s = elim (Bool-cases (str_eq id "")) [
    | inl b ↦ rw b tt
    | inr b ↦ rw b (replace-Stopped id _ _)
  ]

  prepared-Stopped :
      (r : Result (String × String)) (s : ApiState V D) → Stopped (prepared db p r s).0
  prepared-Stopped (err e) s = tt
  prepared-Stopped (ok (existing, cleaned)) s = keep-Stopped existing _

  single-Stopped : (req : CreateRequest) (s : ApiState V D) → Stopped (single_session db p req s).0
  unfolding single_session
  single-Stopped req s = elim (Bool-cases (str_eq req.user_id "")) [
    | inl b ↦ rw b tt
    | inr b ↦ elim (Bool-cases req.acquired) [
      | inl a ↦ rw (b, a) (prepared-Stopped _ _)
      | inr a ↦ rw (b, a) tt
    ]
  ]

  counted-Stopped : (r : Result ℕ) → Stopped (counted db p r)
  counted-Stopped (err e) = tt
  counted-Stopped (ok n) = elim (Bool-cases (leb p.capacity n)) [
    | inl b ↦ rw b tt
    | inr b ↦ rw b tt
  ]

  check-Stopped : (s : ApiState V D) → Stopped (check_capacity db p s).0
  unfolding check_capacity
  check-Stopped s = elim (Bool-cases (p.capacity == 0)) [
    | inl b ↦ rw b tt
    | inr b ↦ rw b (counted-Stopped (p.count_active_sessions s.0).0)
  ]

module _ {D : Type 0} (d : Database D) (table : D → String → Option SessionProgress)
    (rows : Rows d table) (reliable : Reliable d) where
  put-view :
      (id : String) (ss : SessionSteps) (s : StoreState D)
      → ((put (some d) id ss s).0 ≡ true) × (view table (put (some d) id ss s).1 id ≡ some ss)
  unfolding put view
  put-view id ss s =
      rw (reliable.saves id (to_store_progress ss) s.1)
        (refl, rw (lookup-insert id id ss s.0, str_eq_refl id) refl)

  take-view : (id : String) (s : StoreState D) → view table (take (some d) id s).1 id ≡ none
  unfolding take view
  take-view id s =
      rw (lookup-erase id id s.0, str_eq_refl id, rows.delete_row id _ (reliable.deletes id _)) refl

  look-view :
      (id j : String) (s : StoreState D)
      → view table (with_session (some d) id (λ ss. ((ss, ss.current_step), false)) s).1 j
        ≡ view table s j
  look-view id j s =
      (with_session-view d table rows (λ ss. ((ss, ss.current_step), false)) id s
          (reliable.loads id s.1)).1
        j
      ∙ looked (view table s) id j

module _ {V D : Type 0} (table : D → String → Option SessionProgress) where
  abbrev progress_of : ApiState V D → String → Option SessionSteps
  progress_of s id = view table (store_of s) id

  -- What a reply says about the progress under the request's ID.
  abbrev pub Backed : GoMap LabContent → CreateRequest → Reply × ApiState V D → Type 0
  Backed labs req (created x n, s) =
      (lab : String) × (lc : LabContent) × (req.lab_id ≡ some lab)
      × (lookup lab labs ≡ some lc)
      × (progress_of s req.new_id ≡ some (initial lab req.user_id (step_ids lc)))
  Backed labs req (create_failed, s) = progress_of s req.new_id ≡ none
  Backed labs req (r, s) = Unit {0}

  Quiet-Backed :
      (labs : GoMap LabContent) (req : CreateRequest) (r : Reply) (s : ApiState V D)
      → Quiet r
      → Backed labs req (r, s)
  Quiet-Backed labs req (created x n) s q = elim q [ ]
  Quiet-Backed labs req create_failed s q = elim q [ ]
  Quiet-Backed labs req r s q = tt

module _ {V D : Type 0} (d : Database D) (table : D → String → Option SessionProgress)
    (rows : Rows d table) (reliable : Reliable d) (p : Provider V) (labs : GoMap LabContent)
    (req : CreateRequest) (lab : String) (lc : LabContent) (asks : req.lab_id ≡ some lab)
    (has : lookup lab labs ≡ some lc) where
  provisioned-Backed :
      (r : Result Session) (s : ApiState V D)
      → progress_of table s req.new_id ≡ some (initial lab req.user_id (step_ids lc))
      → Backed table labs req (provisioned (some d) p req lab r s)
  provisioned-Backed (err e) s h = take-view d table rows reliable req.new_id (store_of s)
  provisioned-Backed (ok x) s h =
      (lab, lc, asks, has, look-view d table rows reliable x.id req.new_id (store_of s) ∙ h)

  provision-Backed : (s : ApiState V D) → Backed table labs req (provision (some d) p req lab lc s)
  unfolding provision
  provision-Backed s =
      let ss = initial lab req.user_id (step_ids lc) in
      let (b, seen) = put-view d table rows reliable req.new_id ss (store_of s) in
      let (r, v) = p.create req.new_id lab req.user_id lc.init s.0 in
      rw b (provisioned-Backed r (v, ((put (some d) req.new_id ss (store_of s)).1, s.1.1)) seen)

  after_capacity-Backed :
      (st : Stage Unit) (s : ApiState V D)
      → Stopped st
      → Backed table labs req (after_capacity (some d) p req lab lc (st, s))
  after_capacity-Backed (stop r) s q = Quiet-Backed table labs req r s q
  after_capacity-Backed (go tt) s q = provision-Backed s

  after_single-Backed :
      (st : Stage Unit) (s : ApiState V D)
      → Stopped st
      → Backed table labs req (after_single (some d) p req lab lc (st, s))
  after_single-Backed (stop r) s q = Quiet-Backed table labs req r s q
  after_single-Backed (go tt) s q =
      let (st, s') = check_capacity (some d) p s in
      after_capacity-Backed st s' (check-Stopped (some d) p s)

  after_entitlement-Backed :
      (e : Entitlement) (s : ApiState V D)
      → Backed table labs req (after_entitlement (some d) p req lab lc e s)
  after_entitlement-Backed entitled s =
      let (st, s') = single_session (some d) p req s in
      after_single-Backed st s' (single-Stopped (some d) p req s)
  after_entitlement-Backed subscription_required s = tt
  after_entitlement-Backed lookup_failed s = tt

module _ {V D : Type 0} (d : Database D) (table : D → String → Option SessionProgress)
    (rows : Rows d table) (reliable : Reliable d) (api : Api V D) (req : CreateRequest) where
  with_lab-Backed :
      (p : Provider V) (lab : String) (s : ApiState V D)
      → api.db ≡ some d
      → req.lab_id ≡ some lab
      → Backed table api.labs req (with_lab api p req lab (lookup lab api.labs) s)
  with_lab-Backed p lab s b asks = elim (Option-cases (lookup lab api.labs)) [
    | inl e ↦ rw e tt
    | inr (lc, e) ↦
        rw (e, b)
          (let (t, w) =
              ensure_lab_entitlement api.release api.get_subscription req.user_id lc.difficulty
                req.now (store_of s).1 in
            after_entitlement-Backed d table rows reliable p api.labs req lab lc asks e t
              (s.0, (((store_of s).0, w), s.1.1)))
  ]

  with_body-Backed :
      (p : Provider V) (o : Option String) (s : ApiState V D)
      → api.db ≡ some d
      → req.lab_id ≡ o
      → Backed table api.labs req (with_body api p req o s)
  with_body-Backed p none s b asks = tt
  with_body-Backed p (some lab) s b asks = with_lab-Backed p lab s b asks

  -- With a database in which no call fails, a load changes what is stored of no session, a save or a deletion
  -- only what is stored of its own, and a deletion leaves nothing of it: where `CreateSession` answers with a session, the request's
  -- lab is known and the progress under the new ID is the lab's initial one, for this user; where the
  -- provider fails, no progress is left under the new ID.
  pub create_session-Backed :
      (s : ApiState V D) → api.db ≡ some d → Backed table api.labs req (create_session api req s)
  unfolding create_session
  create_session-Backed s b = elim (Option-cases api.sessions) [
    | inl e ↦ rw e tt
    | inr (p, e) ↦ rw e (with_body-Backed p req.lab_id s b refl)
  ]
