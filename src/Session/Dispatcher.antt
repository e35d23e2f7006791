-- ===== src/Session/Dispatcher.antt =====
-- apps/api/internal/session/dispatcher.go: sessions are routed between the on-premises provider and
-- the overflow provider. Each provider keeps its own state; the logger is left out.
pub mod Refines
pub mod Room
use cledyu.Base.{ℕ, ◌+◌, String, List, ◌++◌, Option, none, some, ltb, str_eq, if◌then◌else◌}
use cledyu.Session.{Err, not_found, other, Result, ok, err, Session, BootInit, Provider}

pub record Dispatcher (V W : Type 0) : Type 0 where
  pub onprem : Provider V
  pub overflow : Option (Provider W)
  pub onprem_cap : ℕ

-- the overflow's error wins over the first one
abbrev pub later_error : Option Err → Option Err → Option Err
later_error first (some e) = some e
later_error first none = first

module _ {V W A : Type 0} where
  -- a call of the on-premises provider, and one of the overflow
  abbrev pub on_left : (V → A × V) → V × W → A × (V × W)
  on_left f (v, w) = let (a, v') = f v in (a, (v', w))

  abbrev pub on_right : (W → A × W) → V × W → A × (V × W)
  on_right f (v, w) = let (a, w') = f w in (a, (v, w'))

module _ {V W : Type 0} where
  -- the branch of `Create` after a count
  unfoldable pub route :
      Dispatcher V W
      → Provider W
      → String
      → String
      → String
      → BootInit
      → Result ℕ
      → V × W
      → Result Session × (V × W)
  route d o sid lab uid init (ok n) s =
      if ltb n d.onprem_cap
      then on_left (d.onprem.create sid lab uid init) s
      else on_right (o.create sid lab uid init) s
  route d o sid lab uid init (err e) s = (err e, s)

  unfoldable pub create :
      Dispatcher V W → String → String → String → BootInit → V × W → Result Session × (V × W)
  unfolding route
  create d sid lab uid init s = elim d.overflow [
    | none ↦ on_left (d.onprem.create sid lab uid init) s
    | some o ↦
        let (n, s') = on_left d.onprem.count_active_sessions s in route d o sid lab uid init n s'
  ]

  -- `Get` and `VMIAddress` ask the overflow only where the first answer is `ErrNotFound`.
  unfoldable pub fall_back {ℓ} :
      {A : Type ℓ}
      → Option (Provider W)
      → (Provider W → V × W → Result A × (V × W))
      → Result A
      → V × W
      → Result A × (V × W)
  fall_back overflow next (ok a) s = (ok a, s)
  fall_back (some o) next (err not_found) s = next o s
  fall_back none next (err not_found) s = (err not_found, s)
  fall_back overflow next (err (other e)) s = (err (other e), s)

  unfoldable pub get : Dispatcher V W → String → V × W → Result Session × (V × W)
  unfolding fall_back
  get d id s =
      let (r, s') = on_left (d.onprem.get id) s in
      fall_back d.overflow (λ o. on_right (o.get id)) r s'

  unfoldable pub vmi_address : Dispatcher V W → String → V × W → Result String × (V × W)
  unfolding fall_back
  vmi_address d id s =
      let (r, s') = on_left (d.onprem.vmi_address id) s in
      fall_back d.overflow (λ o. on_right (o.vmi_address id)) r s'

  unfoldable pub delete_next :
      Option (Provider W) → String → Option Err → V × W → Option Err × (V × W)
  delete_next (some o) id (some not_found) s = on_right (o.delete id) s
  delete_next none id (some not_found) s = (some not_found, s)
  delete_next overflow id (some (other e)) s = (some (other e), s)
  delete_next overflow id none s = (none, s)

  unfoldable pub delete : Dispatcher V W → String → V × W → Option Err × (V × W)
  unfolding delete_next
  delete d id s = let (r, s') = on_left (d.onprem.delete id) s in delete_next d.overflow id r s'

  unfoldable pub find_next :
      Option (Provider W) → String → Result String → V × W → Result String × (V × W)
  find_next overflow uid (err e) s = (err e, s)
  find_next none uid (ok id) s = (ok id, s)
  find_next (some o) uid (ok id) s =
      if str_eq id "" then on_right (o.find_active_by_user uid) s else (ok id, s)

  unfoldable pub find_active_by_user : Dispatcher V W → String → V × W → Result String × (V × W)
  unfolding find_next
  find_active_by_user d uid s =
      let (r, s') = on_left (d.onprem.find_active_by_user uid) s in find_next d.overflow uid r s'

  unfoldable pub capacity : Dispatcher V W → ℕ
  capacity d = elim d.overflow [ none ↦ d.onprem_cap | some o ↦ d.onprem_cap + o.capacity ]

  unfoldable pub add_count : ℕ → Result ℕ × (V × W) → Result ℕ × (V × W)
  add_count n (ok m, s) = (ok (n + m), s)
  add_count n (err e, s) = (err e, s)

  unfoldable pub count_next : Option (Provider W) → Result ℕ → V × W → Result ℕ × (V × W)
  unfolding add_count
  count_next overflow (err e) s = (err e, s)
  count_next none (ok n) s = (ok n, s)
  count_next (some o) (ok n) s = add_count n (on_right o.count_active_sessions s)

  unfoldable pub count_active_sessions : Dispatcher V W → V × W → Result ℕ × (V × W)
  unfolding count_next
  count_active_sessions d s =
      let (r, s') = on_left d.onprem.count_active_sessions s in count_next d.overflow r s'

  unfoldable pub reap_both :
      Dispatcher V W
      → (V → (List String × Option Err) × V)
      → (Provider W → W → (List String × Option Err) × W)
      → V × W
      → (List String × Option Err) × (V × W)
  reap_both d f g s =
      let (r, s') = on_left f s in
      elim d.overflow [
        | none ↦ (r, s')
        | some o ↦ let (r2, s2) = on_right (g o) s' in ((r.0 ++ r2.0, later_error r.1 r2.1), s2)
      ]

  -- A dispatcher is itself a provider, over both states.
  unfoldable pub dispatcher : Dispatcher V W → Provider (V × W)
  dispatcher d = record {
    create = create d;
    get = get d;
    delete = delete d;
    find_active_by_user = find_active_by_user d;
    count_active_sessions = count_active_sessions d;
    reap_stuck_sessions = λ timeout.
        reap_both d (d.onprem.reap_stuck_sessions timeout) (λ o. o.reap_stuck_sessions timeout);
    reap_expired_sessions =
        reap_both d d.onprem.reap_expired_sessions (λ o. o.reap_expired_sessions);
    vmi_address = vmi_address d;
    capacity = capacity d;
  }
