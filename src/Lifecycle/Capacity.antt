-- ===== src/Lifecycle/Capacity.antt =====
-- session.go: `CreateSession` and the quota of active sessions.
use cledyu.Base.{
  ℕ, suc, ◌<◌, ◌≤◌, String, ◌≡◌, refl, ap, Bool, true, false, inl, inr, Option, none, some, arith,
  lookup, ◌==◌, str_eq, Bool-cases,
}
use cledyu.Session.{Err, not_found, other, Result, ok, err, Session, Provider}
use cledyu.Session.Contract.{View, Implements, DeleteSpec, CountSpec, CreateSpec}
use cledyu.Store.{Database, put, completed}
use cledyu.Lifecycle.{
  ApiState, store_of, remove, is_failed, after_delete, after_get, after_find,
  prepare_session_creation,
}
use cledyu.Lifecycle.Entitlement.{
  Entitlement, entitled, subscription_required, lookup_failed, ensure_lab_entitlement,
}
use cledyu.Lifecycle.Content.{LabContent, step_ids}
use cledyu.Lifecycle.Create.{
  Api, CreateRequest, Stage, stop, go, replaced, replace, keep_existing, prepared, single_session,
  counted, check_capacity, provisioned, provision, after_capacity, after_single, after_entitlement,
  with_lab, with_body, create_session,
}

module _ {V : Type 0} (p : Provider V) (view : V → View) (implements : Implements p view) where
  abbrev active : V → ℕ
  active v = (view v).active

  deleted-le :
      (v v' : View) (id : String) (e : Option Err) → DeleteSpec v v' id e → v'.active ≤ v.active
  deleted-le v v' id none d = d.1
  deleted-le v v' id (some not_found) d = rw d.1 (omega arith)
  deleted-le v v' id (some (other e)) d = rw d (omega arith)

  delete-le : (id : String) (v : V) → active (p.delete id v).1 ≤ active v
  delete-le id v =
      deleted-le (view v) (view (p.delete id v).1) id (p.delete id v).0
        (implements.delete_answer id v)

  after_delete-le :
      (id : String) (r : Option Err × V) (n : ℕ)
      → active r.1 ≤ n
      → active (after_delete p id r).1 ≤ n
  after_delete-le id (none, v) n h = h
  after_delete-le id (some not_found, v) n h = h
  after_delete-le id (some (other e), v) n h = h

  after_get-le :
      (id : String) (r : Result Session × V) (n : ℕ)
      → active r.1 ≤ n
      → active (after_get p id r).1 ≤ n
  after_get-le id (err not_found, v) n h = h
  after_get-le id (err (other e), v) n h = h
  after_get-le id (ok s, v) n h = elim (Bool-cases (is_failed s.status)) [
    | inl b ↦ rw b (after_delete-le id (p.delete id v) n (omega (arith, delete-le id v, h)))
    | inr b ↦ rw b h
  ]

  after_find-le : (r : Result String × V) (n : ℕ) → active r.1 ≤ n → active (after_find p r).1 ≤ n
  after_find-le (err e, v) n h = h
  after_find-le (ok id, v) n h = elim (Bool-cases (str_eq id "")) [
    | inl b ↦ rw b h
    | inr b ↦ rw b (
        after_get-le id (p.get id v) n
          (omega (arith, ap (λ x. x.active) (implements.get_keeps id v), h)))
  ]

  prepare-le : (uid : String) (v : V) → active (prepare_session_creation p uid v).1 ≤ active v
  unfolding prepare_session_creation
  prepare-le uid v =
      after_find-le (p.find_active_by_user uid v) (active v)
        (omega (arith, ap (λ x. x.active) (implements.find_keeps uid v)))

  module _ {D : Type 0} (db : Option (Database D)) where
    replaced-le :
        (id : String) (e : Option Err) (s : ApiState V D) (n : ℕ)
        → active s.0 ≤ n
        → active (replaced db p id e s).1.0 ≤ n
    replaced-le id none s n h = h
    replaced-le id (some not_found) s n h = h
    replaced-le id (some (other e)) s n h = h

    replace-le :
        (id : String) (b : Bool) (s : ApiState V D) (n : ℕ)
        → active s.0 ≤ n
        → active (replace db p id b s).1.0 ≤ n
    replace-le id true s n h =
        let (e, v) = p.delete id s.0 in
        replaced-le id e (v, s.1) n (omega (arith, delete-le id s.0, h))
    replace-le id false s n h = h

    keep_existing-le :
        (id : String) (s : ApiState V D) (n : ℕ)
        → active s.0 ≤ n
        → active (keep_existing db p id s).1.0 ≤ n
    keep_existing-le id s n h = elim (Bool-cases (str_eq id "")) [
      | inl b ↦ rw b h
      | inr b ↦
          rw b
            (let (c, st) = completed db id (store_of s) in replace-le id c (s.0, (st, s.1.1)) n h)
    ]

    prepared-le :
        (r : Result (String × String)) (s : ApiState V D) (n : ℕ)
        → active s.0 ≤ n
        → active (prepared db p r s).1.0 ≤ n
    prepared-le (err e) s n h = h
    prepared-le (ok (existing, cleaned)) s n h = elim (Bool-cases (str_eq cleaned "")) [
      | inl b ↦ rw b (keep_existing-le existing s n h)
      | inr b ↦ rw b (keep_existing-le existing (remove db cleaned s) n h)
    ]

    single-le :
        (req : CreateRequest) (s : ApiState V D)
        → active (single_session db p req s).1.0 ≤ active s.0
    unfolding single_session
    single-le req s = elim (Bool-cases (str_eq req.user_id "")) [
      | inl b ↦ rw b (omega arith)
      | inr b ↦ elim (Bool-cases req.acquired) [
        | inr a ↦ rw (b, a) (omega arith)
        | inl a ↦
            rw (b, a)
              (let (r, v) = prepare_session_creation p req.user_id s.0 in
                prepared-le r (v, s.1) (active s.0) (prepare-le req.user_id s.0))
      ]
    ]

    counted-lt : (r : Result ℕ) (n : ℕ) → CountSpec n r → counted db p r ≡ go tt → n < p.capacity
    counted-lt (err e) n c h = cc
    counted-lt (ok m) n c h = ground (arith, c, h)

    created-le :
        (n m : ℕ) (sid lab uid : String) (r : Result Session)
        → CreateSpec n m sid lab uid r
        → m ≤ suc n
    created-le n m sid lab uid (ok s) c = omega (arith, c.0)
    created-le n m sid lab uid (err e) c = c.1

    provisioned-active :
        (req : CreateRequest) (lab : String) (r : Result Session) (s : ApiState V D)
        → active (provisioned db p req lab r s).1.0 ≡ active s.0
    provisioned-active req lab (err e) s = refl
    provisioned-active req lab (ok x) s = refl

    provision-le :
        (req : CreateRequest) (lab : String) (lc : LabContent) (s : ApiState V D)
        → active (provision db p req lab lc s).1.0 ≤ suc (active s.0)
    unfolding provision
    provision-le req lab lc s =
        let (b, st) =
          put db req.new_id (cledyu.Progress.initial lab req.user_id (step_ids lc)) (store_of s) in
        elim (Bool-cases b) [
          | inr e ↦ rw e (omega arith)
          | inl e ↦ rw e (
              let (r, v) = p.create req.new_id lab req.user_id lc.init s.0 in
              omega (
                arith,
                provisioned-active req lab r (v, (st, s.1.1)),
                created-le (active s.0) (active v) req.new_id lab req.user_id r
                    (implements.create_answer req.new_id lab req.user_id lc.init s.0),
              ))
        ]

    after_capacity-le :
        (req : CreateRequest) (lab : String) (lc : LabContent) (st : Stage Unit) (s : ApiState V D)
        → (st ≡ go tt → active s.0 < p.capacity)
        → active s.0 ≤ p.capacity
        → active (after_capacity db p req lab lc (st, s)).1.0 ≤ p.capacity
    after_capacity-le req lab lc (stop r) s room h = h
    after_capacity-le req lab lc (go tt) s room h =
        omega (arith, provision-le req lab lc s, room refl)

    check-le :
        (req : CreateRequest) (lab : String) (lc : LabContent) (s : ApiState V D)
        → 0 < p.capacity
        → active s.0 ≤ p.capacity
        → active (after_capacity db p req lab lc (check_capacity db p s)).1.0 ≤ p.capacity
    unfolding check_capacity
    check-le req lab lc s q h =
        let (r, v) = p.count_active_sessions s.0 in
        let same = ap (λ x. x.active) (implements.count_keeps s.0) in
        elim (Bool-cases (p.capacity == 0)) [
          | inl z ↦ elim (nonzero z) [ ]
          | inr z ↦ rw z (
              after_capacity-le req lab lc (counted db p r) (v, s.1)
                (λ g.
                  omega (arith, same, counted-lt r (active s.0) (implements.count_answer s.0) g))
                (omega (arith, same, h)))
        ]
      where
        nonzero : (p.capacity == 0) ≡ true → ⊥
        nonzero z = ground (arith, z, q)

    after_single-le :
        (req : CreateRequest) (lab : String) (lc : LabContent) (st : Stage Unit) (s : ApiState V D)
        → 0 < p.capacity
        → active s.0 ≤ p.capacity
        → active (after_single db p req lab lc (st, s)).1.0 ≤ p.capacity
    after_single-le req lab lc (stop r) s q h = h
    after_single-le req lab lc (go tt) s q h = check-le req lab lc s q h

    after_entitlement-le :
        (req : CreateRequest) (lab : String) (lc : LabContent) (e : Entitlement) (s : ApiState V D)
        → 0 < p.capacity
        → active s.0 ≤ p.capacity
        → active (after_entitlement db p req lab lc e s).1.0 ≤ p.capacity
    after_entitlement-le req lab lc entitled s q h =
        let (st, s') = single_session db p req s in
        after_single-le req lab lc st s' q (omega (arith, single-le req s, h))
    after_entitlement-le req lab lc subscription_required s q h = h
    after_entitlement-le req lab lc lookup_failed s q h = h

  module _ {D : Type 0} (api : Api V D) where
    with_lab-le :
        (req : CreateRequest) (lab : String) (o : Option LabContent) (s : ApiState V D)
        → 0 < p.capacity
        → active s.0 ≤ p.capacity
        → active (with_lab api p req lab o s).1.0 ≤ p.capacity
    with_lab-le req lab none s q h = h
    with_lab-le req lab (some lc) s q h =
        let (e, w) =
          ensure_lab_entitlement api.release api.get_subscription req.user_id lc.difficulty req.now
            (store_of s).1 in
        after_entitlement-le api.db req lab lc e (s.0, (((store_of s).0, w), s.1.1)) q h

    with_body-le :
        (req : CreateRequest) (o : Option String) (s : ApiState V D)
        → 0 < p.capacity
        → active s.0 ≤ p.capacity
        → active (with_body api p req o s).1.0 ≤ p.capacity
    with_body-le req none s q h = h
    with_body-le req (some lab) s q h = with_lab-le req lab (lookup lab api.labs) s q h

    -- Where the provider keeps the contract and has a quota, `CreateSession` leaves the active sessions
    -- within it on every branch, failed creations included, if they are within it before.
    pub create_session-le-capacity :
        (req : CreateRequest) (s : ApiState V D)
        → api.sessions ≡ some p
        → 0 < p.capacity
        → (view s.0).active ≤ p.capacity
        → (view (create_session api req s).1.0).active ≤ p.capacity
    unfolding create_session
    create_session-le-capacity req s e q h = rw e (with_body-le req req.lab_id s q h)
