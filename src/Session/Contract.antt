-- ===== src/Session/Contract.antt =====
-- What session.go's comments promise of a provider, over an abstract view of its sessions.
use mathlib.Core.Path.{fun_ext}
use cledyu.Base.{
  ℕ, suc, ◌+◌, ◌≤◌, String, Bool, true, count, str_eq, ◌≡◌, ◌≢◌, List, Option, none, some, length,
}
use cledyu.Session.{Err, not_found, other, Result, ok, err, Session, Provider, BootInit}

-- What can be seen of a provider's state: the session under an ID, the ID of the active session of
-- a user (empty if there is none), the number of active sessions, whether the session under an ID is
-- active, and how many active ones there are that go by an ID.
pub record View : Type 0 where
  pub session : String → Option Session
  pub active_of : String → String
  pub active : ℕ
  pub runs : String → Bool
  pub live : String → ℕ

-- Views are equal where they show the same.
pub View_path :
    (v v' : View)
    → ((id : String) → v.session id ≡ v'.session id)
    → ((uid : String) → v.active_of uid ≡ v'.active_of uid)
    → v.active ≡ v'.active
    → ((id : String) → v.runs id ≡ v'.runs id)
    → ((id : String) → v.live id ≡ v'.live id)
    → v ≡ v'
View_path v v' s a n r m =
    let p : v.session ≡ v'.session = fun_ext s in
    let q : v.active_of ≡ v'.active_of = fun_ext a in
    let t : v.runs ≡ v'.runs = fun_ext r in let u : v.live ≡ v'.live = fun_ext m in cc

-- A lookup answers with what is there. An error other than `not_found` says nothing.
abbrev pub GetSpec : Option Session → Result Session → Type 0
GetSpec o (ok s) = o ≡ some s
GetSpec o (err not_found) = o ≡ none
GetSpec o (err (other _)) = Unit {0}

-- A deletion succeeds only where the session was there. If that was active, there is one active session less,
-- and one less that goes by its ID. A failed deletion changes nothing.
abbrev pub DeleteSpec : View → View → String → Option Err → Type 0
DeleteSpec v v' id none =
    (v.session id ≢ none)
    × (v'.active ≤ v.active)
    × (v.runs id ≡ true → (suc v'.active ≤ v.active) × (suc (v'.live id) ≤ v.live id))
DeleteSpec v v' id (some not_found) = (v.session id ≡ none) × (v' ≡ v)
DeleteSpec v v' id (some (other _)) = v' ≡ v

abbrev pub FindSpec : String → Result String → Type 0
FindSpec id (ok r) = r ≡ id
FindSpec id (err _) = Unit {0}

abbrev pub CountSpec : ℕ → Result ℕ → Type 0
CountSpec n (ok r) = r ≡ n
CountSpec n (err _) = Unit {0}

-- A creation that fails may leave one more active session behind.
abbrev pub CreateSpec : ℕ → ℕ → String → String → String → Result Session → Type 0
CreateSpec before after sid lab uid (ok s) =
    (after ≡ suc before) × (s.id ≡ sid) × (s.lab_id ≡ lab) × (s.user_id ≡ uid)
CreateSpec before after sid lab uid (err _) = (before ≤ after) × (after ≤ suc before)

-- At least as many active sessions go as are reported, and for every ID, at least as many of those that go by
-- it as often as it is reported.
abbrev pub ReapSpec : View → View → List String → Type 0
ReapSpec v v' ids =
    (v'.active + length ids ≤ v.active)
    × ((x : String) → v'.live x + count (str_eq x) ids ≤ v.live x)

pub record Implements {W : Type 0} (p : Provider W) (view : W → View) : Type 0 where
  pub get_answer : (id : String) (w : W) → GetSpec ((view w).session id) (p.get id w).0
  pub get_keeps : (id : String) (w : W) → view (p.get id w).1 ≡ view w
  pub delete_answer :
      (id : String) (w : W) → DeleteSpec (view w) (view (p.delete id w).1) id (p.delete id w).0
  pub find_answer :
      (uid : String) (w : W) → FindSpec ((view w).active_of uid) (p.find_active_by_user uid w).0
  pub find_keeps : (uid : String) (w : W) → view (p.find_active_by_user uid w).1 ≡ view w
  pub count_answer : (w : W) → CountSpec (view w).active (p.count_active_sessions w).0
  pub count_keeps : (w : W) → view (p.count_active_sessions w).1 ≡ view w
  pub create_answer :
      (sid lab uid : String) (init : BootInit) (w : W)
      → CreateSpec
          (view w).active
          (view (p.create sid lab uid init w).1).active
          sid
          lab
          uid
          (p.create sid lab uid init w).0
  pub stuck_answer :
      (timeout : ℕ) (w : W)
      → ReapSpec
          (view w)
          (view (p.reap_stuck_sessions timeout w).1)
          (p.reap_stuck_sessions timeout w).0.0
  pub expired_answer :
      (w : W)
      → ReapSpec (view w) (view (p.reap_expired_sessions w).1) (p.reap_expired_sessions w).0.0
