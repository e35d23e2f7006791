-- ===== src/Billing/Buys.antt =====
-- A purchase from the plan to the subscription.
use cledyu.Base.{
  ℕ, ◌+◌, ◌≤◌, ◌<◌, String, ◌≡◌, refl, ap, false, [], none, some, arith, str_eq, ◌==◌,
}
use cledyu.Sql.{at, query, exec}
use cledyu.Sql.Tables.{Tables, CheckoutSession}
use cledyu.Sql.Checkout.{checkout_of, add_checkout, create_checkout_session, get_subscription}
use cledyu.Sql.Checkout.Settles.{paid}
use cledyu.Sql.Checkout.Retry.{paid-subscription, buy-quiet}
use cledyu.Billing.{
  BillingPlan, find_billing_plan, checkout_row, create_checkout, complete_checkout,
  get_my_subscription, checkout, subscription, checkout_response, SubscriptionResponse,
  checkout_for, subscription_answer,
}
use cledyu.Billing.Created.{found_id}
use cledyu.Billing.Paid.{appended, find-appended}

abbrev pub month_of : String → ℕ → SubscriptionResponse
month_of plan_id end = record {
  plan_id = plan_id;
  status = "active";
  current_period_end = some end;
}

module _ (add_month : ℕ → ℕ) (now db_now later db_later : ℕ) (id uid plan_id : String)
    (plan : BillingPlan) (t : Tables) (user : str_eq uid "" ≡ false)
    (known : find_billing_plan plan_id ≡ some plan) (priced : 0 < plan.price_krw)
    (fresh : checkout_of id t ≡ none) (in_time : later ≤ now + 1800) where
  abbrev row : CheckoutSession
  row = checkout_row id uid plan now db_now

  abbrev opened : Tables
  opened = appended row t

  abbrev bought : Tables
  bought = paid add_month later db_later id uid row opened

  create-quiet :
      create_checkout id uid now db_now (some plan_id) (some (at t []))
      ≡ (checkout (checkout_response row), some (at opened []))
  unfolding create_checkout create_checkout_session exec
  create-quiet =
      let costs : (plan.price_krw == 0) ≡ false = ground (arith, priced) in
      rw user (rw (known, checkout_for) (rw costs (rw (fresh, add_checkout) refl)))

  complete-quiet :
      complete_checkout add_month later db_later id uid (some (at opened []))
      ≡ (subscription (month_of plan.id (add_month later)), some (at bought []))
  unfolding complete_checkout
  complete-quiet = rw user (
      rw
        (buy-quiet add_month later db_later id uid opened row
          (find-appended t.checkout_sessions row fresh, refl, refl) in_time)
        refl)

  get-quiet :
      get_my_subscription uid (some (at bought []))
      ≡ (subscription (month_of plan.id (add_month later)), some (at bought []))
  unfolding get_my_subscription get_subscription query
  get-quiet =
      rw user (
        rw (paid-subscription add_month later db_later id uid row opened, subscription_answer) refl)

  -- A user takes a plan that costs something, with a fresh ID, completes the checkout within half an hour
  -- and asks for the subscription, with nothing failing: the checkout answers as pending, completing it
  -- answers with an active subscription to that plan for a month from then, and so does the question.
  pub buy_and_look :
      let opens = create_checkout id uid now db_now (some plan_id) (some (at t [])) in
      let pays = complete_checkout add_month later db_later id uid opens.1 in
      let looks = get_my_subscription uid pays.1 in
      (opens.0 ≡ checkout (checkout_response row))
      × (pays.0 ≡ subscription (month_of plan_id (add_month later)))
      × (looks.0 ≡ pays.0)
  buy_and_look = rw create-quiet (
      rw complete-quiet (
        rw get-quiet (
          refl,
          ap (λ p. subscription (month_of p (add_month later))) (found_id plan_id plan known),
          refl,
        )))
