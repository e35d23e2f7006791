-- ===== src/Billing/Priced.antt =====
-- Every state of the billing tables that the handlers reach is sound.
use cledyu.Base.{
  ℕ, String, ◌≡◌, refl, subst, inl, inr, List, Option, none, some, str_eq, Bool-cases,
}
use cledyu.Sql.{Turn, ok, err, Pg, at}
use cledyu.Sql.Tables.{Tables}
use cledyu.Sql.Checkout.{Settled, complete_checkout_session}
use cledyu.Sql.Checkout.Settles.{complete-Outcome}
use cledyu.Sql.Checkout.{checkout_not_found, checkout_expired, invalid_status, db_error}
use cledyu.Billing.{create_checkout, complete_checkout, Handled, completed}
use cledyu.Billing.Reach.{Sound, Reach, none_yet, creates, completes}
use cledyu.Billing.Created.{Created, create-Created}
use cledyu.Billing.Paid.{added-is, added-Sound, outcome-Sound}

abbrev tables_of : Tables → Option (Pg Tables) → Tables
tables_of t none = t
tables_of t (some pg) = pg.tables

Created-Sound : (t : Tables) (r : Handled) → Created t r → Sound t → Sound (tables_of t r.1)
Created-Sound t (r, none) h s = s
Created-Sound t (r, some pg) (inl same) s = rw same s
Created-Sound t (r, some pg) (inr (c, p, w, a)) s =
    rw (added-is c t pg.tables a) (added-Sound c t p w s)

completed-tables : (t : Tables) (r : Settled × Pg Tables) → tables_of t (completed r).1 ≡ r.1.tables
completed-tables t (ok s, pg) = refl
completed-tables t (err checkout_not_found, pg) = refl
completed-tables t (err checkout_expired, pg) = refl
completed-tables t (err invalid_status, pg) = refl
completed-tables t (err db_error, pg) = refl

complete-Sound :
    (add_month : ℕ → ℕ) (now db_now : ℕ) (id uid : String) (t : Tables) (ts : List Turn)
    → Sound t
    → Sound (tables_of t (complete_checkout add_month now db_now id uid (some (at t ts))).1)
unfolding complete_checkout
complete-Sound add_month now db_now id uid t ts s = elim (Bool-cases (str_eq uid "")) [
  | inl e ↦ rw e s
  | inr e ↦ rw e (
      rw (completed-tables t (complete_checkout_session add_month now db_now id uid (at t ts))) (
        outcome-Sound add_month now db_now id uid t _
          (complete-Outcome add_month now db_now id uid (at t ts)) s))
]

-- In every state that the handlers reach from empty billing tables, whatever failed on the way: checkouts
-- and subscriptions are for plans that cost something, a subscription is active, and a checkout is
-- pending or expired, or it is completed and its user has a subscription.
pub Reach-Sound : {t : Tables} → Reach t → Sound t
Reach-Sound (none_yet t c s) = record {
  checkouts = λ id x f. absurd (cc (rw c at f));
  subscriptions = λ uid x f. absurd (cc (rw s at f));
}
Reach-Sound (creates {t} id uid now db_now body ts pg r e) =
    subst (λ o. Sound (tables_of t o)) e
      (Created-Sound t (create_checkout id uid now db_now body (some (at t ts)))
        (create-Created id uid now db_now body t ts) (Reach-Sound r))
Reach-Sound (completes {t} add_month now db_now id uid ts pg r e) =
    subst (λ o. Sound (tables_of t o)) e
      (complete-Sound add_month now db_now id uid t ts (Reach-Sound r))
