-- ===== src/Sql/Checkout.antt =====
-- store.go, billing: the subscriptions and the attempts to pay for one.
-- `now` is the API's clock, `db_now` the server's, and `add_month` Go's AddDate(0, 1, 0).
pub mod Settles
pub mod Retry
use cledyu.Base.{
  ℕ, String, Bool, true, false, not, ◌&&◌, List, [], ◌∷◌, ◌++◌, Option, none, some, str_eq, ltb,
  find, if◌then◌else◌,
}
use cledyu.Sql.{Result, ok, err, Pg, Tx, ◌>>=◌, ◌>>◌, give, fail, stmt, in_tx, exec, query}
use cledyu.Sql.Tables.{Tables, Subscription, CheckoutSession, update, upsert}

pub data CheckoutErr : Type 0 where
  checkout_not_found checkout_expired invalid_status db_error : CheckoutErr

abbrev pub has_id : String → CheckoutSession → Bool
has_id id c = str_eq c.id id

abbrev pub subscribes : String → Subscription → Bool
subscribes uid s = str_eq s.subscriber uid

abbrev pub checkout_of : String → Tables → Option CheckoutSession
checkout_of id t = find (has_id id) t.checkout_sessions

abbrev pub subscription_of : String → Tables → Option Subscription
subscription_of uid t = find (subscribes uid) t.subscriptions

abbrev pub mark : String → String → Tables → Tables
mark id status t = record t {
  checkout_sessions = update (has_id id) (λ c. record c { status = status }) t.checkout_sessions;
}

abbrev pub active : String → String → ℕ → ℕ → Subscription
active uid plan end db_now = record {
  subscriber = uid;
  plan_id = plan;
  status = "active";
  current_period_end = some end;
  updated_at = db_now;
}

-- The upsert with RETURNING: every column but the key is that of the new row.
abbrev pub subscribe : Subscription → Tables → Subscription × Tables
subscribe s t =
    (s, record t { subscriptions = upsert (subscribes s.subscriber) s (λ old. s) t.subscriptions })

unfoldable pub get_subscription : String → Pg Tables → Option (Option Subscription) × Pg Tables
get_subscription uid = query (subscription_of uid)

-- The primary key refuses a second row of one ID. `created_at` is the server's time.
abbrev pub add_checkout : CheckoutSession → Tables → Option Tables
add_checkout c t = elim (checkout_of c.id t) [
  | some old ↦ none
  | none ↦ some (record t { checkout_sessions = t.checkout_sessions ++ c ∷ [] })
]

unfoldable pub create_checkout_session : CheckoutSession → Pg Tables → Bool × Pg Tables
create_checkout_session c = exec (add_checkout c)

abbrev Txn : Type 0 → Type 0
Txn A = Tx Tables CheckoutErr A

abbrev pub Settled : Type 0
Settled = Result CheckoutErr Subscription

abbrev existing : Option Subscription → Txn Settled
existing none = fail invalid_status
existing (some s) = give (ok s)

-- a checkout that was completed before
abbrev pub complete_again : String → Txn Settled
complete_again uid = do s ← stmt db_error (λ t. (subscription_of uid t, t)); existing s

abbrev pub expire : String → Txn Settled
expire id = do stmt db_error (λ t. (tt, mark id "expired" t)); give (err checkout_expired)

abbrev pub activate : String → Subscription → Txn Settled
activate id new = do
  stmt db_error (λ t. (tt, mark id "completed" t))
  s ← stmt db_error (subscribe new)
  give (ok s)

module _ (add_month : ℕ → ℕ) (now db_now : ℕ) where
  unfoldable pub complete_own : String → String → CheckoutSession → Txn Settled
  complete_own id uid c =
      if not (str_eq c.status "pending") && not (str_eq c.status "completed")
      then fail invalid_status
      else if str_eq c.status "completed"
      then complete_again uid
      else if ltb c.expires_at now
      then expire id
      else activate id (active uid c.plan_id (add_month now) db_now)

  abbrev pub complete_found : String → String → Option CheckoutSession → Txn Settled
  complete_found id uid none = fail checkout_not_found
  complete_found id uid (some c) =
      if not (str_eq c.user_id uid) then fail checkout_not_found else complete_own id uid c

  unfoldable pub complete_body : String → String → Txn Settled
  complete_body id uid = do c ← stmt db_error (λ t. (checkout_of id t, t)); complete_found id uid c

  abbrev pub joined : Result CheckoutErr Settled × Pg Tables → Settled × Pg Tables
  joined (ok r, pg) = (r, pg)
  joined (err e, pg) = (err e, pg)

  -- The transaction gives what the code returns behind its COMMIT.
  unfoldable pub complete_checkout_session : String → String → Pg Tables → Settled × Pg Tables
  unfolding complete_body
  complete_checkout_session id uid pg = joined (in_tx db_error (complete_body id uid) pg)
