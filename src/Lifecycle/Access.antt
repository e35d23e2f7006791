-- ===== src/Lifecycle/Access.antt =====
-- session.go and ownership.go: what another user's request does, and what a failed reaper leaves.
use cledyu.Base.{
  ℕ, String, ◌≡◌, ◌≢◌, refl, true, false, inl, inr, ◌++◌, Option, some, str_eq, str_eq_iff,
  Bool-cases,
}
use cledyu.Session.{Err, not_found, other, Result, ok, err, Session, Provider}
use cledyu.Session.Dispatcher.{dispatcher, reap_both}
use cledyu.Store.{Database}
use cledyu.Lifecycle.{
  Reply, session_not_found, ApiState, deny_if_not_owner, get_session, delete_session, owned,
  reap_expired_sessions,
}

str_eq-false : (s t : String) → s ≢ t → str_eq s t ≡ false
str_eq-false s t n = elim (Bool-cases (str_eq s t)) [
  | inl b ↦ elim (n ((str_eq_iff s t).0 b)) [ ]
  | inr b ↦ b
]

denied :
    (uid owner : String) → uid ≢ "" → owner ≢ "" → uid ≢ owner → deny_if_not_owner uid owner ≡ true
unfolding deny_if_not_owner
denied uid owner u o d =
    rw (str_eq-false uid "" u, str_eq-false owner "" o, str_eq-false uid owner d) refl

module _ {V D : Type 0} (db : Option (Database D)) (p : Provider V) where
  -- A session that is not there, or that has another owner.
  abbrev pub Hidden : String → Result Session → Type 0
  Hidden uid (err not_found) = Unit {0}
  Hidden uid (err (other _)) = ⊥
  Hidden uid (ok x) = (x.user_id ≢ "") × (uid ≢ x.user_id)

  Hidden-owned :
      (uid : String) (r : Result Session) (k : Session → ApiState V D → Reply × ApiState V D)
      (e : Reply) (s : ApiState V D)
      → uid ≢ ""
      → Hidden uid r
      → owned uid r k e s ≡ (session_not_found, s)
  Hidden-owned uid (err not_found) k e s u h = refl
  Hidden-owned uid (err (other _)) k e s u h = elim h [ ]
  Hidden-owned uid (ok x) k e s u (o, d) = rw (denied uid x.user_id u o d) refl

  -- For a known user, a session with another known owner is as good as none: reading and deleting
  -- answer that there is no such session, and nothing is done but the provider's lookup.
  pub Hidden-not_found :
      (uid id : String) (s : ApiState V D)
      → uid ≢ ""
      → Hidden uid (p.get id s.0).0
      → (get_session db (some p) uid id s ≡ (session_not_found, ((p.get id s.0).1, s.1)))
        × (delete_session db (some p) uid id s ≡ (session_not_found, ((p.get id s.0).1, s.1)))
  unfolding get_session delete_session
  Hidden-not_found uid id s u h =
      let (r, v) = p.get id s.0 in
      (Hidden-owned uid r _ _ (v, s.1) u h, Hidden-owned uid r _ _ (v, s.1) u h)

module _ {V W : Type 0} (left : Provider V) (right : Provider W) (cap : ℕ) where
  abbrev pub two : Provider (V × W)
  two = dispatcher (record { onprem = left; overflow = some right; onprem_cap = cap })

  module _ {D : Type 0} (db : Option (Database D)) where
    -- Where the overflow's reaper fails, the sessions that the on-premises one did reap are reported, but
    -- the API neither removes their progress nor records that they were abandoned.
    pub reaped_lost :
        (s : ApiState (V × W) D) (e : Err)
        → (right.reap_expired_sessions s.0.1).0.1 ≡ some e
        → ((two.reap_expired_sessions s.0).0.0
            ≡ (left.reap_expired_sessions s.0.0).0.0 ++ (right.reap_expired_sessions s.0.1).0.0)
          × ((reap_expired_sessions db (some two) s).1 ≡ s.1)
    unfolding reap_expired_sessions dispatcher reap_both
    reaped_lost s e h = (refl, rw h refl)
