-- ===== src/Billing/Created.antt =====
-- What create_checkout may do to the tables.
use cledyu.Base.{
  ℕ, ◌<◌, String, ◌≡◌, refl, ap, ◌⊎◌, inl, inr, Bool, true, false, List, [], ◌∷◌, Option, none,
  some, arith, str_eq, str_eq_iff, ◌==◌, find, Bool-cases, Option-cases,
}
use cledyu.Sql.{Turn, Pg, at}
use cledyu.Sql.Atomic.{Done, exec-Done}
use cledyu.Sql.Tables.{Tables, CheckoutSession}
use cledyu.Sql.Checkout.{add_checkout, create_checkout_session}
use cledyu.Billing.{
  BillingPlan, billing_plans, find_billing_plan, checkout_row, create_checkout, Handled, created,
  checkout_for,
}
use cledyu.Billing.Reach.{price_of, IsPriced}

find-hit : {A : Type 0} (p : A → Bool) (l : List A) (x : A) → find p l ≡ some x → p x ≡ true
find-hit p [] x h = cc
find-hit p (y ∷ l) x h = ground (arith, find-hit p l x)

-- What create_checkout may do to the tables.
abbrev pub Created : Tables → Handled → Type 0
Created t (r, none) = Unit
Created t (r, some pg) =
    (pg.tables ≡ t)
    ⊎ ((c : CheckoutSession) × IsPriced c.plan_id
        × (c.status ≡ "pending")
        × (add_checkout c t ≡ some pg.tables))

created-Created :
    (c : CheckoutSession) (t : Tables) (r : Bool × Pg Tables)
    → IsPriced c.plan_id
    → c.status ≡ "pending"
    → Done (add_checkout c t) t r
    → Created t (created c r)
created-Created c t (true, pg) h w d = inr (c, h, w, d)
created-Created c t (false, pg) h w (inl same) = inl same
created-Created c t (false, pg) h w (inr d) = inr (c, h, w, d)

pub found_id :
    (plan_id : String) (plan : BillingPlan)
    → find_billing_plan plan_id ≡ some plan
    → plan.id ≡ plan_id
unfolding find_billing_plan
found_id plan_id plan h =
    (str_eq_iff plan.id plan_id).0 (find-hit (λ p. str_eq p.id plan_id) billing_plans plan h)

priced : (n : ℕ) → (n == 0) ≡ false → 0 < n
priced n h = ground arith

found-IsPriced :
    (plan_id : String) (plan : BillingPlan)
    → find_billing_plan plan_id ≡ some plan
    → (plan.price_krw == 0) ≡ false
    → IsPriced plan.id
found-IsPriced plan_id plan h p =
    let q : price_of (find_billing_plan plan_id) ≡ plan.price_krw = ap price_of h in
    rw (found_id plan_id plan h) (omega (arith, q, priced plan.price_krw p))

for-Created :
    (id uid : String) (now db_now : ℕ) (plan_id : String) (t : Tables) (ts : List Turn)
    → Created t (checkout_for id uid now db_now (find_billing_plan plan_id) (at t ts))
unfolding create_checkout_session
for-Created id uid now db_now plan_id t ts = elim (Option-cases (find_billing_plan plan_id)) [
  | inl e ↦ rw (e, checkout_for) (inl refl)
  | inr (plan, e) ↦
      rw (e, checkout_for)
        (elim (Bool-cases (plan.price_krw == 0)) [
          | inl free ↦ rw free (inl refl)
          | inr priced ↦
              let c : CheckoutSession = checkout_row id uid plan now db_now in
              rw priced (
                created-Created c t _ (found-IsPriced plan_id plan e priced) refl
                  (exec-Done (add_checkout c) (at t ts)))
        ])
]

pub create-Created :
    (id uid : String) (now db_now : ℕ) (body : Option String) (t : Tables) (ts : List Turn)
    → Created t (create_checkout id uid now db_now body (some (at t ts)))
unfolding create_checkout
create-Created id uid now db_now none t ts = elim (Bool-cases (str_eq uid "")) [
  | inl e ↦ rw e (inl refl)
  | inr e ↦ rw e (inl refl)
]
create-Created id uid now db_now (some plan_id) t ts = elim (Bool-cases (str_eq uid "")) [
  | inl e ↦ rw e (inl refl)
  | inr e ↦ rw e (for-Created id uid now db_now plan_id t ts)
]
