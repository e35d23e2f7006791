-- ===== src/Sql/Checkout/Retry.antt =====
-- CompleteCheckoutSession again, after a call whose answer may have been lost.
use cledyu.Base.{
  ℕ, ◌≤◌, String, ◌≡◌, refl, sym, ap, ◌∙◌, ◌⊎◌, inl, inr, true, false, [], some, arith, str_eq,
  str_eq_iff, ltb,
}
use cledyu.Sql.{ok, err, Pg, at, stmt, in_tx}
use cledyu.Sql.Tables.{Tables, CheckoutSession, Subscription}
use cledyu.Sql.Tables.Rows.{
  changed, merged_same, find-update_self, find-update_other, find-upsert_self, find-upsert_other,
}
use cledyu.Sql.Checkout.{
  Settled, checkout_of, subscription_of, mark, complete_own, complete_found, complete_body,
  complete_checkout_session,
}
use cledyu.Sql.Checkout.Settles.{Owned, paid_until, paid, Settles, Outcome, complete-Outcome}

pub mark_self :
    (id st : String) (t : Tables) (c : CheckoutSession)
    → checkout_of id t ≡ some c
    → checkout_of id (mark id st t) ≡ some (record c { status = st })
mark_self id st t c h =
    find-update_self (λ x. x.id) id (λ x. record x { status = st }) t.checkout_sessions (λ x. refl)
    ∙ ap (changed (λ x. x.id) (λ x. record x { status = st })) h

pub mark_other :
    (id j st : String) (t : Tables)
    → str_eq id j ≡ false
    → checkout_of j (mark id st t) ≡ checkout_of j t
mark_other id j st t d =
    find-update_other (λ x. x.id) id j (λ x. record x { status = st }) t.checkout_sessions
      (λ x. refl) d

pending-ne-completed : str_eq "pending" "completed" ≡ false
unfolding str_eq
pending-ne-completed = refl

module _ (id uid : String) (t : Tables) (c c' : CheckoutSession) where
  same_checkout : checkout_of id t ≡ some c → checkout_of id t ≡ some c' → c' ≡ c
  same_checkout h h' = cc

  pending_not_completed : Owned id uid "pending" t c → Owned id uid "completed" t c' → ⊥
  pending_not_completed (here, own, wait) (here', own', done) =
      let e : c'.status ≡ c.status = ap (λ x. x.status) (same_checkout here here') in
      let r : str_eq "pending" "completed" ≡ true = (str_eq_iff _ _).1 (sym wait ∙ sym e ∙ done) in
      cc (pending-ne-completed, r)

module _ (add_month : ℕ → ℕ) (now db_now : ℕ) where
  abbrev complete : String → String → Pg Tables → Settled × Pg Tables
  complete = complete_checkout_session add_month now db_now

  abbrev bought : String → CheckoutSession → Subscription
  bought = paid_until add_month now db_now

  abbrev after : String → String → CheckoutSession → Tables → Tables
  after = paid add_month now db_now

  pub paid-subscription :
      (id uid : String) (c : CheckoutSession) (t : Tables)
      → subscription_of uid (after id uid c t) ≡ some (bought uid c)
  paid-subscription id uid c t =
      find-upsert_self (λ s. s.subscriber) uid (bought uid c) (λ s. bought uid c) t.subscriptions
        refl (λ s e. refl)
      ∙ ap (λ s. some s) (merged_same (bought uid c) _)

  pub paid-others :
      (id uid j : String) (c : CheckoutSession) (t : Tables)
      → str_eq uid j ≡ false
      → subscription_of j (after id uid c t) ≡ subscription_of j t
  paid-others id uid j c t d =
      find-upsert_other (λ s. s.subscriber) uid j (bought uid c) (λ s. bought uid c) t.subscriptions
        refl (λ s e. refl) d

  -- With nothing failing: a checkout that was completed before, and one that is pending.
  again-quiet :
      (id uid : String) (t : Tables) (c : CheckoutSession) (s : Subscription)
      → Owned id uid "completed" t c
      → subscription_of uid t ≡ some s
      → complete id uid (at t []) ≡ (ok s, at t [])
  unfolding complete_checkout_session complete_body complete_own in_tx stmt
  again-quiet id uid t c s (here, own, done) h =
      ground (arith, str_eq_iff c.user_id uid, str_eq_iff c.status "completed")

  own-quiet :
      (id uid : String) (t : Tables) (c : CheckoutSession)
      → c.status ≡ "pending"
      → now ≤ c.expires_at
      → complete_own add_month now db_now id uid c (t, [])
        ≡ (ok (ok (bought uid c)), (after id uid c t, []))
  unfolding complete_own stmt
  own-quiet id uid t c wait h =
      let pending : str_eq c.status "pending" ≡ true = (str_eq_iff _ _).1 wait in
      let early : ltb c.expires_at now ≡ false = ground arith in
      rw (ap (λ s. str_eq s "completed") wait ∙ pending-ne-completed) (rw pending (rw early refl))

  pub buy-quiet :
      (id uid : String) (t : Tables) (c : CheckoutSession)
      → Owned id uid "pending" t c
      → now ≤ c.expires_at
      → complete id uid (at t []) ≡ (ok (bought uid c), at (after id uid c t) [])
  unfolding complete_checkout_session complete_body in_tx stmt
  buy-quiet id uid t c (here, own, wait) h =
      let mine : str_eq c.user_id uid ≡ true = (str_eq_iff _ _).1 own in
      rw (here, complete_found) (rw mine (rw (own-quiet id uid t c wait h) refl))

  pub paid-Owned :
      (id uid : String) (c : CheckoutSession) (t : Tables)
      → Owned id uid "pending" t c
      → Owned id uid "completed" (after id uid c t) (record c { status = "completed" })
  paid-Owned id uid c t (here, own, wait) = (mark_self id "completed" t c here, own, refl)

  settled-after :
      (id uid : String) (t : Tables) (c : CheckoutSession) (r : Settled) (t' : Tables)
      → Owned id uid "pending" t c
      → now ≤ c.expires_at
      → Settles add_month now db_now id uid t r t'
      → t' ≡ after id uid c t
  settled-after id uid t c (ok s) t' o h (c', inl (o', found, e)) =
      absurd (pending_not_completed id uid t c c' o o')
  settled-after id uid t c (ok s) t' o h (c', inr (o', early, new, e)) =
      e ∙ ap (λ x. after id uid x t) (same_checkout id uid t c c' o.0 o'.0)
  settled-after id uid t c (err e) t' o h (c', (o', late, new, e')) =
      absurd (omega (arith, h, late, ap (λ x. x.expires_at) (same_checkout id uid t c c' o.0 o'.0)))

  settled_tables :
      (id uid : String) (t : Tables) (c : CheckoutSession) (r : Settled × Pg Tables)
      → Owned id uid "pending" t c
      → now ≤ c.expires_at
      → Outcome add_month now db_now id uid t r
      → (r.1.tables ≡ t) ⊎ (r.1.tables ≡ after id uid c t)
  settled_tables id uid t c (ok s, pg) o h a = inr (settled-after id uid t c (ok s) pg.tables o h a)
  settled_tables id uid t c (err e, pg) o h (inl same) = inl same
  settled_tables id uid t c (err e, pg) o h (inr (r, a)) =
      inr (settled-after id uid t c r pg.tables o h a)

-- The answer is the subscription that the user has then, to the plan of the checkout.
abbrev pub Completed : String → String → CheckoutSession → Settled × Pg Tables → Type 0
Completed id uid c r =
    (s : Subscription) × (r.0 ≡ ok s)
    × (s.plan_id ≡ c.plan_id)
    × (s.status ≡ "active")
    × (subscription_of uid r.1.tables ≡ some s)
    × (checkout_of id r.1.tables ≡ some (record c { status = "completed" }))

module _ (add_month : ℕ → ℕ) (now db_now later db_later : ℕ) where
  -- A user completes a pending checkout of their own, and again later, before it expires. Whatever fails
  -- in the first call, its answer included: if nothing fails in the second, it answers with the active
  -- subscription to the plan of the checkout, which the user has then, and the checkout is completed.
  pub retry-Completed :
      (id uid : String) (pg : Pg Tables) (c : CheckoutSession)
      → Owned id uid "pending" pg.tables c
      → now ≤ c.expires_at
      → later ≤ c.expires_at
      → let first : Pg Tables = (complete_checkout_session add_month now db_now id uid pg).1 in
        Completed id uid c
          (complete_checkout_session add_month later db_later id uid (at first.tables []))
  retry-Completed id uid pg c o h h' =
      elim (settled_tables add_month now db_now id uid pg.tables c _ o h
        (complete-Outcome add_month now db_now id uid pg)) [
          | inl same ↦ rw same (
              rw (buy-quiet add_month later db_later id uid pg.tables c o h') (
                paid_until add_month later db_later uid c,
                refl,
                refl,
                refl,
                paid-subscription add_month later db_later id uid c pg.tables,
                (paid-Owned add_month later db_later id uid c pg.tables o).0,
              ))
          | inr done ↦
              let t : Tables = paid add_month now db_now id uid c pg.tables in
              let found : subscription_of uid t ≡ some (paid_until add_month now db_now uid c) =
                paid-subscription add_month now db_now id uid c pg.tables in
              let o' : Owned id uid "completed" t (record c { status = "completed" }) =
                paid-Owned add_month now db_now id uid c pg.tables o in
              rw done (
                rw (again-quiet add_month later db_later id uid t _ _ o' found)
                  (paid_until add_month now db_now uid c, refl, refl, refl, found, o'.0))
        ]
