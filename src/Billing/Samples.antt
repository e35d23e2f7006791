-- ===== src/Billing/Samples.antt =====
-- Instances of the theorems on billing, on a shop with nothing in it.
use cledyu.Base.{ℕ, ◌+◌, ◌≡◌, refl, true, false, [], ◌∷◌, some, arith, str_eq}
use cledyu.Sql.{Pg, at, works, loses, exec}
use cledyu.Sql.Tables.{Tables}
use cledyu.Sql.Checkout.{checkout_of, create_checkout_session, complete_checkout_session}
use cledyu.Sql.Checkout.Settles.{Owned, Outcome, complete-Outcome}
use cledyu.Sql.Checkout.Retry.{Completed, retry-Completed}
use cledyu.Billing.{
  BillingPlan, find_billing_plan, checkout_row, checkout_response, create_checkout,
  complete_checkout, get_my_subscription, checkout, subscription,
}
use cledyu.Billing.Reach.{Sound, Reach, none_yet, creates}
use cledyu.Billing.Priced.{Reach-Sound}
use cledyu.Billing.Buys.{month_of, buy_and_look}

abbrev empty : Tables
empty = record {
  users = [];
  session_progress = [];
  session_steps = [];
  lab_completions = [];
  subscriptions = [];
  checkout_sessions = [];
}

abbrev month : ℕ → ℕ
month t = t + 2592000

abbrev pro : BillingPlan
pro = record {
  id = "pro-monthly";
  name = "Pro";
  price_krw = 9900;
  interval = "month";
  features = "전체 Hands-on Lab" ∷ "AI 힌트 사용량 확장" ∷ "배지와 수료 이력" ∷ [];
  recommended = true;
}

pro_known : find_billing_plan "pro-monthly" ≡ some pro
unfolding find_billing_plan str_eq
pro_known = refl

named : str_eq "u1" "" ≡ false
unfolding str_eq
named = refl

-- A checkout of u1 that is open until 1800.
abbrev opened : Tables
opened = record empty { checkout_sessions = checkout_row "chk_1" "u1" pro 0 0 ∷ [] }

found : checkout_of "chk_1" opened ≡ some (checkout_row "chk_1" "u1" pro 0 0)
unfolding str_eq
found = refl

owned : Owned "chk_1" "u1" "pending" opened (checkout_row "chk_1" "u1" pro 0 0)
owned = (found, refl, refl)

-- The COMMIT of the first call takes effect, and its answer gets lost.
abbrev lossy : Pg Tables
lossy = at opened (works ∷ works ∷ works ∷ works ∷ loses ∷ [])

complete-Outcome_example :
    Outcome month 60 61 "chk_1" "u1" opened
      (complete_checkout_session month 60 61 "chk_1" "u1" lossy)
complete-Outcome_example = complete-Outcome month 60 61 "chk_1" "u1" lossy

retry-Completed_example : Completed "chk_1" "u1" (checkout_row "chk_1" "u1" pro 0 0) (
    complete_checkout_session month 70 71 "chk_1" "u1"
      (at (complete_checkout_session month 60 61 "chk_1" "u1" lossy).1.tables []))
retry-Completed_example =
    retry-Completed month 60 61 70 71 "chk_1" "u1" lossy (checkout_row "chk_1" "u1" pro 0 0) owned
      (omega arith) (omega arith)

opens :
    (create_checkout "chk_1" "u1" 0 0 (some "pro-monthly") (some (at empty []))).1
    ≡ some (at opened [])
unfolding create_checkout find_billing_plan str_eq create_checkout_session exec
opens = refl

reached : Reach opened
reached =
    creates "chk_1" "u1" 0 0 (some "pro-monthly") [] (at opened []) (none_yet empty refl refl) opens

Reach-Sound_example : Sound opened
Reach-Sound_example = Reach-Sound reached

buy_and_look_example :
    let opens = create_checkout "chk_1" "u1" 0 0 (some "pro-monthly") (some (at empty [])) in
    let pays = complete_checkout month 60 61 "chk_1" "u1" opens.1 in
    let looks = get_my_subscription "u1" pays.1 in
    (opens.0 ≡ checkout (checkout_response (checkout_row "chk_1" "u1" pro 0 0)))
    × (pays.0 ≡ subscription (month_of "pro-monthly" (month 60)))
    × (looks.0 ≡ pays.0)
buy_and_look_example =
    buy_and_look month 0 0 60 61 "chk_1" "u1" "pro-monthly" pro empty named pro_known (omega arith)
      refl (omega arith)
