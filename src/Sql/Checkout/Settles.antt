-- ===== src/Sql/Checkout/Settles.antt =====
-- CompleteCheckoutSession: what a call leaves behind, whatever fails on its way.
use cledyu.Base.{
  ℕ, ◌≤◌, ◌<◌, String, ◌≡◌, refl, ◌⊎◌, inl, inr, List, some, arith, str_eq, str_eq_iff, ltb,
  Bool-cases, Option-cases,
}
use cledyu.Sql.{Turn, Result, ok, err, Pg}
use cledyu.Sql.Atomic.{Ensures, Atomic, stmt-Ensures, in_tx-Atomic}
use cledyu.Sql.Tables.{Tables, CheckoutSession, Subscription}
use cledyu.Sql.Checkout.{
  CheckoutErr, checkout_expired, db_error, Settled, checkout_of, subscription_of, mark, active,
  subscribe, complete_again, expire, activate, complete_own, complete_body,
  complete_checkout_session, joined,
}

-- The checkout is there, is the user's and has the status.
abbrev pub Owned : String → String → String → Tables → CheckoutSession → Type 0
Owned id uid status t c = (checkout_of id t ≡ some c) × (c.user_id ≡ uid) × (c.status ≡ status)

module _ (add_month : ℕ → ℕ) (now db_now : ℕ) where
  abbrev pub paid_until : String → CheckoutSession → Subscription
  paid_until uid c = active uid c.plan_id (add_month now) db_now

  abbrev pub paid : String → String → CheckoutSession → Tables → Tables
  paid id uid c t = (subscribe (paid_until uid c) (mark id "completed" t)).1

  abbrev pub Again : String → String → Tables → CheckoutSession → Subscription → Tables → Type 0
  Again id uid t c s t' = Owned id uid "completed" t c × (subscription_of uid t ≡ some s) × (t' ≡ t)

  abbrev pub Bought : String → String → Tables → CheckoutSession → Subscription → Tables → Type 0
  Bought id uid t c s t' =
      Owned id uid "pending" t c
      × (now ≤ c.expires_at)
      × (s ≡ paid_until uid c)
      × (t' ≡ paid id uid c t)

  abbrev pub Expired : String → String → Tables → CheckoutSession → CheckoutErr → Tables → Type 0
  Expired id uid t c e t' =
      Owned id uid "pending" t c
      × (c.expires_at < now)
      × (e ≡ checkout_expired)
      × (t' ≡ mark id "expired" t)

  -- What a call that was carried out says, and how it changes the tables.
  abbrev pub Settles : String → String → Tables → Settled → Tables → Type 0
  Settles id uid t (ok s) t' =
      (c : CheckoutSession) × (Again id uid t c s t' ⊎ Bought id uid t c s t')
  Settles id uid t (err e) t' = (c : CheckoutSession) × Expired id uid t c e t'

  again-Settles :
      (id uid : String) (t : Tables) (ts : List Turn) (c : CheckoutSession)
      → Owned id uid "completed" t c
      → Ensures (Settles id uid t) (complete_again uid (t, ts))
  again-Settles id uid t ts c o = stmt-Ensures (Settles id uid t) db_error _ _ t ts (λ ts'.
      elim (Option-cases (subscription_of uid t)) [
        | inl e ↦ rw e tt
        | inr (s, e) ↦ rw e (c, inl (o, e, refl))
      ])

  expire-Settles :
      (id uid : String) (t : Tables) (ts : List Turn) (c : CheckoutSession)
      → Owned id uid "pending" t c
      → c.expires_at < now
      → Ensures (Settles id uid t) (expire id (t, ts))
  expire-Settles id uid t ts c o late =
      stmt-Ensures (Settles id uid t) db_error _ _ t ts (λ ts'. (c, (o, late, refl, refl)))

  activate-Settles :
      (id uid : String) (t : Tables) (ts : List Turn) (c : CheckoutSession)
      → Owned id uid "pending" t c
      → now ≤ c.expires_at
      → Ensures (Settles id uid t) (activate id (paid_until uid c) (t, ts))
  activate-Settles id uid t ts c o early = stmt-Ensures (Settles id uid t) db_error _ _ t ts (λ ts'.
      stmt-Ensures (Settles id uid t) db_error _ _ (mark id "completed" t) ts'
        (λ ts''. (c, inr (o, early, refl, refl))))

  own-Settles :
      (id uid : String) (t : Tables) (ts : List Turn) (c : CheckoutSession)
      → checkout_of id t ≡ some c
      → c.user_id ≡ uid
      → Ensures (Settles id uid t) (complete_own add_month now db_now id uid c (t, ts))
  unfolding complete_own
  own-Settles id uid t ts c here own = elim (Bool-cases (str_eq c.status "completed")) [
    | inl e ↦ rw e (ground (arith, again-Settles id uid t ts c (here, own, (str_eq_iff _ _).0 e)))
    | inr e ↦ rw e (elim (Bool-cases (str_eq c.status "pending")) [
      | inl p ↦
          let o : Owned id uid "pending" t c = (here, own, (str_eq_iff _ _).0 p) in
          rw p (elim (Bool-cases (ltb c.expires_at now)) [
            | inl late ↦ rw late (expire-Settles id uid t ts c o (ground arith))
            | inr early ↦ rw early (activate-Settles id uid t ts c o (ground arith))
          ])
      | inr p ↦ rw p tt
    ])
  ]

  body-Settles :
      (id uid : String) (t : Tables) (ts : List Turn)
      → Ensures (Settles id uid t) (complete_body add_month now db_now id uid (t, ts))
  unfolding complete_body
  body-Settles id uid t ts = stmt-Ensures (Settles id uid t) db_error _ _ t ts (λ ts'.
      elim (Option-cases (checkout_of id t)) [
        | inl e ↦ rw e tt
        | inr (c, e) ↦ rw e (elim (Bool-cases (str_eq c.user_id uid)) [
          | inl own ↦ rw own (own-Settles id uid t ts' c e ((str_eq_iff _ _).0 own))
          | inr other ↦ rw other tt
        ])
      ])

  -- An error, too, may come behind a call that was carried out.
  abbrev pub Outcome : String → String → Tables → Settled × Pg Tables → Type 0
  Outcome id uid t (ok s, pg) = Settles id uid t (ok s) pg.tables
  Outcome id uid t (err e, pg) = (pg.tables ≡ t) ⊎ ((r : Settled) × Settles id uid t r pg.tables)

  joined-Outcome :
      (id uid : String) (t : Tables) (r : Result CheckoutErr Settled × Pg Tables)
      → Atomic (Settles id uid t) t r
      → Outcome id uid t (joined add_month now db_now r)
  joined-Outcome id uid t (ok (ok s), pg) h = h
  joined-Outcome id uid t (ok (err e), pg) h = inr (err e, h)
  joined-Outcome id uid t (err e, pg) h = h

  -- Whatever fails: an answer without an error is that of a call that was carried out, which gave an own
  -- checkout that was completed before its user's subscription and changed nothing, or completed an own
  -- pending one in time together with the subscription to its plan. Behind an error the tables are as
  -- before or as such a call has left them, or an own pending checkout was marked as expired, too late.
  pub complete-Outcome :
      (id uid : String) (pg : Pg Tables)
      → Outcome id uid pg.tables (complete_checkout_session add_month now db_now id uid pg)
  unfolding complete_checkout_session
  complete-Outcome id uid pg =
      joined-Outcome id uid pg.tables _
        (in_tx-Atomic (Settles id uid pg.tables) db_error _ pg (body-Settles id uid pg.tables))
