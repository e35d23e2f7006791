-- ===== src/Billing.antt =====
-- apps/api/internal/api/handlers/billing.go: the plans, and the handlers over the database of Sql.
-- The handler without a database has `none` for it. `now` is the API's clock and `db_now` the
-- server's, in seconds; the ID of a new checkout and Go's AddDate(0, 1, 0) are arguments. A body is the
-- plan that it names, or none if it cannot be bound.
pub mod Reach
pub mod Created
pub mod Paid
pub mod Priced
pub mod Buys
mod Samples
use Prim.Native.String.{◌++◌}
use cledyu.Base.{
  ℕ, ◌+◌, String, Bool, true, false, List, [], ◌∷◌, Option, none, some, str_eq, ◌==◌, find,
  if◌then◌else◌,
}
use cledyu.Sql.{Result, ok, err, Pg}
use cledyu.Sql.Tables.{Tables, Subscription, CheckoutSession}
use cledyu.Sql.Checkout.{
  CheckoutErr, checkout_not_found, checkout_expired, invalid_status, db_error, Settled,
  get_subscription, create_checkout_session, complete_checkout_session,
}

pub record BillingPlan : Type 0 where
  pub id : String
  pub name : String
  pub price_krw : ℕ
  pub interval : String
  pub features : List String
  pub recommended : Bool

abbrev pub billing_plans : List BillingPlan
billing_plans =
    record {
      id = "free";
      name = "Free";
      price_krw = 0;
      interval = "none";
      features = "공개 Lab 카탈로그" ∷ "기본 학습 현황" ∷ [];
      recommended = false;
    }
    ∷ record {
      id = "pro-monthly";
      name = "Pro";
      price_krw = 9900;
      interval = "month";
      features = "전체 Hands-on Lab" ∷ "AI 힌트 사용량 확장" ∷ "배지와 수료 이력" ∷ [];
      recommended = true;
    }
    ∷ record {
      id = "team-monthly";
      name = "Team";
      price_krw = 29900;
      interval = "month";
      features = "팀 단위 학습 현황" ∷ "팀 학습 관리" ∷ "운영 리포트 준비" ∷ [];
      recommended = false;
    }
    ∷ []

unfoldable pub find_billing_plan : String → Option BillingPlan
find_billing_plan plan_id = find (λ p. str_eq p.id plan_id) billing_plans

-- checkoutResponse
pub record CheckoutResponse : Type 0 where
  pub id : String
  pub provider : String
  pub status : String
  pub checkout_url : String
  pub expires_at : ℕ

-- subscriptionResponse
pub record SubscriptionResponse : Type 0 where
  pub plan_id : String
  pub status : String
  pub current_period_end : Option ℕ

pub data Reply : Type 0 where
  fails : ℕ → Reply
  plans : List BillingPlan → Reply
  subscription : SubscriptionResponse → Reply
  checkout : CheckoutResponse → Reply

abbrev pub free : SubscriptionResponse
free = record { plan_id = "free"; status = "free"; current_period_end = none }

abbrev pub shown : Subscription → SubscriptionResponse
shown s = record {
  plan_id = s.plan_id;
  status = s.status;
  current_period_end = s.current_period_end;
}

abbrev pub Handled : Type 0
Handled = Reply × Option (Pg Tables)

unfoldable pub get_billing_plans : Reply
get_billing_plans = plans billing_plans

abbrev pub subscription_answer : Option (Option Subscription) × Pg Tables → Handled
subscription_answer (none, pg) = (fails 500, some pg)
subscription_answer (some none, pg) = (subscription free, some pg)
subscription_answer (some (some s), pg) = (subscription (shown s), some pg)

abbrev subscription_of_user : String → Option (Pg Tables) → Handled
subscription_of_user uid none = (subscription free, none)
subscription_of_user uid (some pg) = subscription_answer (get_subscription uid pg)

unfoldable pub get_my_subscription : String → Option (Pg Tables) → Handled
get_my_subscription uid db = if str_eq uid "" then (fails 401, db) else subscription_of_user uid db

abbrev pub checkout_row : String → String → BillingPlan → ℕ → ℕ → CheckoutSession
checkout_row id uid plan now db_now = record {
  id = id;
  user_id = uid;
  plan_id = plan.id;
  provider = "mock";
  status = "pending";
  checkout_url = "/billing?checkout_session_id=" ++ id ++ "&provider=mock";
  created_at = db_now;
  expires_at = now + 1800;
}

abbrev pub checkout_response : CheckoutSession → CheckoutResponse
checkout_response c = record {
  id = c.id;
  provider = c.provider;
  status = c.status;
  checkout_url = c.checkout_url;
  expires_at = c.expires_at;
}

abbrev pub created : CheckoutSession → Bool × Pg Tables → Handled
created c (false, pg) = (fails 500, some pg)
created c (true, pg) = (checkout (checkout_response c), some pg)

abbrev pub checkout_for : String → String → ℕ → ℕ → Option BillingPlan → Pg Tables → Handled
checkout_for id uid now db_now none pg = (fails 400, some pg)
checkout_for id uid now db_now (some plan) pg =
    let c = checkout_row id uid plan now db_now in
    if plan.price_krw == 0 then (fails 400, some pg) else created c (create_checkout_session c pg)

abbrev pub checkout_body : String → String → ℕ → ℕ → Option String → Pg Tables → Handled
checkout_body id uid now db_now none pg = (fails 400, some pg)
checkout_body id uid now db_now (some plan_id) pg =
    checkout_for id uid now db_now (find_billing_plan plan_id) pg

unfoldable pub create_checkout :
    String → String → ℕ → ℕ → Option String → Option (Pg Tables) → Handled
create_checkout id uid now db_now body none = (fails 503, none)
create_checkout id uid now db_now body (some pg) =
    if str_eq uid "" then (fails 401, some pg) else checkout_body id uid now db_now body pg

abbrev pub completed : Settled × Pg Tables → Handled
completed (ok s, pg) = (subscription (shown s), some pg)
completed (err checkout_not_found, pg) = (fails 404, some pg)
completed (err checkout_expired, pg) = (fails 409, some pg)
completed (err invalid_status, pg) = (fails 409, some pg)
completed (err db_error, pg) = (fails 500, some pg)

unfoldable pub complete_checkout : (ℕ → ℕ) → ℕ → ℕ → String → String → Option (Pg Tables) → Handled
complete_checkout add_month now db_now id uid none = (fails 503, none)
complete_checkout add_month now db_now id uid (some pg) =
    if str_eq uid ""
    then (fails 401, some pg)
    else completed (complete_checkout_session add_month now db_now id uid pg)
