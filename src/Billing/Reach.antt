-- ===== src/Billing/Reach.antt =====
-- The states of the billing tables that the handlers reach, and what is sound in them.
use cledyu.Base.{ℕ, ◌<◌, String, ◌≡◌, ◌⊎◌, List, [], Option, none, some}
use cledyu.Sql.{Turn, Pg, at}
use cledyu.Sql.Tables.{Tables, Subscription, CheckoutSession}
use cledyu.Sql.Checkout.{checkout_of, subscription_of}
use cledyu.Billing.{BillingPlan, find_billing_plan, create_checkout, complete_checkout}

abbrev pub price_of : Option BillingPlan → ℕ
price_of none = 0
price_of (some p) = p.price_krw

-- a plan that costs something
abbrev pub IsPriced : String → Type 0
IsPriced plan_id = 0 < price_of (find_billing_plan plan_id)

abbrev pub InState : Tables → CheckoutSession → Type 0
InState t c =
    (c.status ≡ "pending")
    ⊎ (c.status ≡ "expired")
    ⊎ ((c.status ≡ "completed") × (s : Subscription) × (subscription_of c.user_id t ≡ some s))

-- Checkouts and subscriptions are for plans that cost something; a subscription is active; a checkout is
-- pending, expired, or completed, and then its user has a subscription.
pub record Sound (t : Tables) : Type 0 where
  pub checkouts :
      (id : String) (c : CheckoutSession)
      → checkout_of id t ≡ some c
      → IsPriced c.plan_id × InState t c
  pub subscriptions :
      (uid : String) (s : Subscription)
      → subscription_of uid t ≡ some s
      → IsPriced s.plan_id × (s.status ≡ "active")

-- What the billing tables go through: the two handlers that write, for any user, body and clock, with
-- whatever fails in the database and between the calls.
pub data Reach : Tables → Type 0 where
  none_yet : (t : Tables) → t.checkout_sessions ≡ [] → t.subscriptions ≡ [] → Reach t
  creates :
      {t : Tables} (id uid : String) (now db_now : ℕ) (body : Option String) (ts : List Turn)
      (pg : Pg Tables)
      → Reach t
      → (create_checkout id uid now db_now body (some (at t ts))).1 ≡ some pg
      → Reach pg.tables
  completes :
      {t : Tables} (add_month : ℕ → ℕ) (now db_now : ℕ) (id uid : String) (ts : List Turn)
      (pg : Pg Tables)
      → Reach t
      → (complete_checkout add_month now db_now id uid (some (at t ts))).1 ≡ some pg
      → Reach pg.tables
