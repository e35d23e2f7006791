-- ===== src/Billing/Paid.antt =====
-- What completing a checkout does to sound tables.
use cledyu.Base.{
  arith, none, ℕ, String, ◌≡◌, refl, sym, subst, ◌∙◌, ◌⊎◌, inl, inr, List, [], ◌∷◌, ◌++◌, some,
  str_eq, str_eq_iff, str_eq_refl, find, Bool-cases, Option-cases,
}
use cledyu.Sql.{ok, err, Pg}
use cledyu.Sql.Tables.{Tables, CheckoutSession}
use cledyu.Sql.Checkout.{checkout_of, subscription_of, mark, has_id, add_checkout, Settled}
use cledyu.Sql.Checkout.Settles.{Owned, Settles, Outcome, paid, paid_until}
use cledyu.Sql.Checkout.Retry.{mark_self, mark_other, paid-subscription, paid-others}
use cledyu.Billing.Reach.{IsPriced, InState, Sound}

found-appended :
    (l : List CheckoutSession) (c x : CheckoutSession) (id : String)
    → find (has_id id) (l ++ c ∷ []) ≡ some x
    → (find (has_id id) l ≡ some x) ⊎ (x ≡ c)
found-appended [] c x id h = elim (Bool-cases (str_eq c.id id)) [
  | inl e ↦ inr (cc (rw e at h))
  | inr e ↦ absurd (cc (rw e at h))
]
found-appended (y ∷ l) c x id h = elim (Bool-cases (str_eq y.id id)) [
  | inl e ↦ rw e (inl (rw e at h))
  | inr e ↦ rw e (found-appended l c x id (rw e at h))
]

pub find-appended :
    (l : List CheckoutSession) (c : CheckoutSession)
    → find (has_id c.id) l ≡ none
    → find (has_id c.id) (l ++ c ∷ []) ≡ some c
find-appended [] c h = rw (str_eq_refl c.id) refl
find-appended (y ∷ l) c h = ground (arith, find-appended l c)

abbrev pub appended : CheckoutSession → Tables → Tables
appended c t = record t { checkout_sessions = t.checkout_sessions ++ c ∷ [] }

pub added-is :
    (c : CheckoutSession) (t t' : Tables) → add_checkout c t ≡ some t' → t' ≡ appended c t
added-is c t t' h = elim (Option-cases (checkout_of c.id t)) [
  | inl e ↦ cc (rw (e, add_checkout) at h)
  | inr (x, e) ↦ cc (rw (e, add_checkout) at h)
]

pub added-Sound :
    (c : CheckoutSession) (t : Tables)
    → IsPriced c.plan_id
    → c.status ≡ "pending"
    → Sound t
    → Sound (appended c t)
added-Sound c t p w s = record {
  checkouts = λ id x f. elim (found-appended t.checkout_sessions c x id f) [
    | inl g ↦ s.checkouts id x g
    | inr e ↦ rw e (p, inl w)
  ];
  subscriptions = s.subscriptions;
}

pub marked-Sound :
    (id : String) (t : Tables) (c : CheckoutSession)
    → checkout_of id t ≡ some c
    → Sound t
    → Sound (mark id "expired" t)
marked-Sound id t c h s = record {
  checkouts = λ j x f. elim (Bool-cases (str_eq id j)) [
    | inl e ↦
        let x_is : x ≡ record c { status = "expired" } =
          cc (mark_self id "expired" t c h, f, (str_eq_iff id j).0 e) in
        rw x_is ((s.checkouts id c h).0, inr (inl refl))
    | inr e ↦ s.checkouts j x (sym (mark_other id j "expired" t e) ∙ f)
  ];
  subscriptions = s.subscriptions;
}

module _ (add_month : ℕ → ℕ) (now db_now : ℕ) (id uid : String) (t : Tables) where
  still-InState :
      (c x : CheckoutSession) → InState t x → InState (paid add_month now db_now id uid c t) x
  still-InState c x (inl e) = inl e
  still-InState c x (inr (inl e)) = inr (inl e)
  still-InState c x (inr (inr (e, s, found))) = elim (Bool-cases (str_eq uid x.user_id)) [
    | inl b ↦ inr (
        inr (
          e,
          paid_until add_month now db_now uid c,
          subst
              (λ u.
                subscription_of u (paid add_month now db_now id uid c t)
                ≡ some (paid_until add_month now db_now uid c))
              ((str_eq_iff uid x.user_id).0 b) (paid-subscription add_month now db_now id uid c t),
        ))
    | inr b ↦ inr (inr (e, s, paid-others add_month now db_now id uid x.user_id c t b ∙ found))
  ]

  paid-Sound :
      (c : CheckoutSession)
      → Owned id uid "pending" t c
      → Sound t
      → Sound (paid add_month now db_now id uid c t)
  paid-Sound c (here, own, wait) s = record {
    checkouts = λ j x f. elim (Bool-cases (str_eq id j)) [
      | inl e ↦
          let x_is : x ≡ record c { status = "completed" } =
            cc (mark_self id "completed" t c here, f, (str_eq_iff id j).0 e) in
          rw x_is (
            (s.checkouts id c here).0,
            inr (
                inr (
                  refl,
                  paid_until add_month now db_now uid c,
                  subst
                      (λ u.
                        subscription_of u (paid add_month now db_now id uid c t)
                        ≡ some (paid_until add_month now db_now uid c))
                      (sym own) (paid-subscription add_month now db_now id uid c t),
                )),
          )
      | inr e ↦
          let old : checkout_of j t ≡ some x = sym (mark_other id j "completed" t e) ∙ f in
          ((s.checkouts j x old).0, still-InState c x (s.checkouts j x old).1)
    ];
    subscriptions = λ j x f. elim (Bool-cases (str_eq uid j)) [
      | inl e ↦
          let x_is : x ≡ paid_until add_month now db_now uid c =
            cc (paid-subscription add_month now db_now id uid c t, f, (str_eq_iff uid j).0 e) in
          rw x_is ((s.checkouts id c here).0, refl)
      | inr e ↦ s.subscriptions j x (sym (paid-others add_month now db_now id uid j c t e) ∙ f)
    ];
  }

  settled-Sound :
      (r : Settled) (t' : Tables) → Settles add_month now db_now id uid t r t' → Sound t → Sound t'
  settled-Sound (ok a) t' (c, inl (o, found, e)) s = rw e s
  settled-Sound (ok a) t' (c, inr (o, early, new, e)) s = rw e (paid-Sound c o s)
  settled-Sound (err f) t' (c, (o, late, new, e)) s = rw e (marked-Sound id t c o.0 s)

  pub outcome-Sound :
      (r : Settled × Pg Tables)
      → Outcome add_month now db_now id uid t r
      → Sound t
      → Sound r.1.tables
  outcome-Sound (ok a, pg) h s = settled-Sound (ok a) pg.tables h s
  outcome-Sound (err e, pg) (inl same) s = rw same s
  outcome-Sound (err e, pg) (inr (r, h)) s = settled-Sound r pg.tables h s
