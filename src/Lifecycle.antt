-- ===== src/Lifecycle.antt =====
-- The life of a session in the API: apps/api/internal/api/handlers/session.go (prepareSessionCreation,
-- CreateSession, GetSession, DeleteSession and the two reapers), and ownership.go's denyIfNotOwner.
-- A handler takes the provider's state, the step store and the events emitted so far, and answers
-- with one constructor for each response that the code writes.
pub mod Content
pub mod Entitlement
pub mod Create
pub mod Capacity
pub mod Backed
pub mod Access
pub mod Validate
pub mod Asked
pub mod Samples
use cledyu.Base.{
  ℕ, String, Bool, true, false, not, ◌&&◌, List, [], ◌∷◌, Option, none, some, GoMap, lookup, leb,
  ◌==◌, str_eq, if◌then◌else◌,
}
use cledyu.Session.{
  Err, not_found, other, Result, ok, err, Session, Status, failed, Provider, BootInit,
}
use cledyu.Progress.{SessionSteps, Event, lab_abandoned, plain_event, all_passed}
use cledyu.Store.{Database, StoreState, with_session, take}

pub data Reply : Type 0 where
  not_configured bad_request no_lab session_not_found : Reply
  subscription_needed entitlement_error : Reply
  locked prepare_failed replace_failed : Reply
  session_exists : String → Reply
  count_failed capacity_reached progress_failed create_failed : Reply
  get_failed delete_failed : Reply
  -- the session and its current step; the URLs of the response are left out
  created found : Session → ℕ → Reply
  deleted : Reply

abbrev pub is_failed : Status → Bool
is_failed failed = true
is_failed _ = false

abbrev pub ApiState : Type 0 → Type 0 → Type 0
ApiState V D = V × (StoreState D × List Event)

module _ {V : Type 0} (p : Provider V) where
  abbrev after_delete : String → Option Err × V → Result (String × String) × V
  after_delete id (none, v) = (ok ("", id), v)
  after_delete id (some not_found, v) = (ok ("", id), v)
  after_delete id (some (other e), v) = (err (other e), v)

  abbrev after_get : String → Result Session × V → Result (String × String) × V
  after_get id (err not_found, v) = (ok ("", id), v)
  after_get id (err (other e), v) = (err (other e), v)
  after_get id (ok s, v) =
      if is_failed s.status then after_delete id (p.delete id v) else (ok (id, ""), v)

  abbrev after_find : Result String × V → Result (String × String) × V
  after_find (err e, v) = (err e, v)
  after_find (ok id, v) = if str_eq id "" then (ok (id, ""), v) else after_get id (p.get id v)

  -- `prepareSessionCreation`: the active session, and the one that was cleaned up.
  unfoldable pub prepare_session_creation : String → V → Result (String × String) × V
  prepare_session_creation uid v = after_find (p.find_active_by_user uid v)

-- `denyIfNotOwner`, on the request's user and the owner.
unfoldable pub deny_if_not_owner : String → String → Bool
deny_if_not_owner uid owner =
    not (str_eq uid "") && (not (str_eq owner "") && not (str_eq uid owner))

abbrev abandoned : String → Option SessionSteps → List Event → List Event
abandoned id none es = es
abandoned id (some ss) es = if all_passed ss then es else plain_event lab_abandoned ss id 0 ∷ es

abbrev or_zero : Option ℕ → ℕ
or_zero none = 0
or_zero (some n) = n

module _ {V D : Type 0} where
  abbrev pub store_of : ApiState V D → StoreState D
  store_of s = s.1.0

  abbrev pub owned :
      String
      → Result Session
      → (Session → ApiState V D → Reply × ApiState V D)
      → Reply
      → ApiState V D
      → Reply × ApiState V D
  owned uid (err not_found) k e s = (session_not_found, s)
  owned uid (err (other _)) k e s = (e, s)
  owned uid (ok x) k e s = if deny_if_not_owner uid x.user_id then (session_not_found, s) else k x s

  -- The session for its owner; what is said where the provider fails is the third argument.
  abbrev pub get_owned :
      Provider V
      → String
      → String
      → Reply
      → (Session → ApiState V D → Reply × ApiState V D)
      → ApiState V D
      → Reply × ApiState V D
  get_owned p uid id e k s = let (r, v) = p.get id s.0 in owned uid r k e (v, s.1)

  abbrev pub reaped_with :
      (List String → ApiState V D → ApiState V D)
      → (List String × Option Err) × V
      → ApiState V D
      → ApiState V D
  reaped_with k ((ids, some e), v) s = (v, s.1)
  reaped_with k ((ids, none), v) s = k ids (v, s.1)

module _ {V D : Type 0} (db : Option (Database D)) where
  -- `sessionResponse`: a look at the store for the current step, which can load it into the cache.
  abbrev pub session_response :
      (Session → ℕ → Reply) → Session → ApiState V D → Reply × ApiState V D
  session_response k x s =
      let (o, st) = with_session db x.id (λ ss. ((ss, ss.current_step), false)) (store_of s) in
      (k x (or_zero o), (s.0, (st, s.1.1)))

  -- `remove`
  abbrev pub remove : String → ApiState V D → ApiState V D
  remove id s = (s.0, ((take db id (store_of s)).1, s.1.1))

  abbrev pub emit : Event → ApiState V D → ApiState V D
  emit e s = (s.0, (store_of s, e ∷ s.1.1))

  -- `take`, and the event if the lab was not completed.
  unfoldable pub take_abandoned : String → ApiState V D → ApiState V D
  take_abandoned id s = let (o, st) = take db id (store_of s) in (s.0, (st, abandoned id o s.1.1))

  abbrev pub take_all : List String → ApiState V D → ApiState V D
  take_all [] s = s
  take_all (id ∷ ids) s = take_all ids (take_abandoned id s)

  abbrev pub remove_all : List String → ApiState V D → ApiState V D
  remove_all [] s = s
  remove_all (id ∷ ids) s = remove_all ids (remove id s)

  abbrev pub finish_delete : String → Option Err → ApiState V D → Reply × ApiState V D
  finish_delete id (some not_found) s = (session_not_found, s)
  finish_delete id (some (other _)) s = (delete_failed, s)
  finish_delete id none s = (deleted, take_abandoned id s)

  module _ (sessions : Option (Provider V)) where
    -- `GetSession`
    unfoldable pub get_session : String → String → ApiState V D → Reply × ApiState V D
    unfolding deny_if_not_owner with_session
    get_session uid id s = elim sessions [
      | none ↦ (not_configured, s)
      | some p ↦ get_owned p uid id get_failed (session_response found) s
    ]

    -- `DeleteSession`
    unfoldable pub delete_session : String → String → ApiState V D → Reply × ApiState V D
    unfolding deny_if_not_owner take_abandoned
    delete_session uid id s = elim sessions [
      | none ↦ (not_configured, s)
      | some p ↦
          get_owned p uid id delete_failed
            (λ x s'. let (e, v) = p.delete id s'.0 in finish_delete id e (v, s'.1)) s
    ]

    -- `ReapStuckSessions`, with the configured minutes; 0 switches it off.
    unfoldable pub reap_stuck_sessions : ℕ → ApiState V D → ApiState V D
    reap_stuck_sessions minutes s = elim sessions [
      | none ↦ s
      | some p ↦
          if minutes == 0 then s else reaped_with remove_all (p.reap_stuck_sessions minutes s.0) s
    ]

    -- `ReapExpiredSessions`
    unfoldable pub reap_expired_sessions : ApiState V D → ApiState V D
    unfolding take_abandoned
    reap_expired_sessions s = elim sessions [
      | none ↦ s
      | some p ↦ reaped_with take_all (p.reap_expired_sessions s.0) s
    ]
