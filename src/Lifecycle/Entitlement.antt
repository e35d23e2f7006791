-- ===== src/Lifecycle/Entitlement.antt =====
-- apps/api/internal/api/handlers/entitlement.go: which labs ask for a subscription. The row of the
-- subscription comes from the database, which is a parameter.
use cledyu.Base.{ℕ, String, Bool, false, not, ◌&&◌, Option, none, some, ltb, str_eq, if◌then◌else◌}
use cledyu.Session.{Result, ok, err}

-- store.Subscription; the end of the period is an instant.
pub record Subscription : Type 0 where
  pub plan_id : String
  pub status : String
  pub current_period_end : Option ℕ

pub data Entitlement : Type 0 where
  entitled subscription_required lookup_failed : Entitlement

unfoldable pub lab_requires_paid_plan : String → Bool
lab_requires_paid_plan difficulty = not (str_eq difficulty "beginner")

abbrev ended : Option ℕ → ℕ → Bool
ended none now = false
ended (some t) now = not (ltb now t)

unfoldable pub has_active_paid_subscription : Option Subscription → ℕ → Bool
has_active_paid_subscription none now = false
has_active_paid_subscription (some sub) now =
    str_eq sub.status "active"
    && (not (str_eq sub.plan_id "free") && not (ended sub.current_period_end now))

abbrev pub judged : Result (Option Subscription) → ℕ → Entitlement
judged (err e) now = lookup_failed
judged (ok sub) now =
    if has_active_paid_subscription sub now then entitled else subscription_required

-- `ensureLabEntitlement`; `release` says that the mode is release or there is no configuration.
unfoldable pub ensure_lab_entitlement :
    {D : Type 0}
    → Bool
    → Option (String → D → Result (Option Subscription) × D)
    → String
    → String
    → ℕ
    → D
    → Entitlement × D
unfolding lab_requires_paid_plan has_active_paid_subscription
ensure_lab_entitlement release db uid difficulty now w =
    if release
    then (entitled, w)
    else if lab_requires_paid_plan difficulty
    then (elim db [
      | none ↦ (entitled, w)
      | some get_subscription ↦ let (r, w') = get_subscription uid w in (judged r now, w')
    ])
    else (entitled, w)
