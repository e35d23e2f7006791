-- ===== src/Dashboard/Statuses.antt =====
-- GetMyLabStatuses: which session a user is sent on to.
use cledyu.Base.{
  ℕ, ◌<◌, ltb, arith, and-eq-true, String, ◌≡◌, refl, sym, subst, ◌∙◌, ◌⊎◌, inl, inr, Bool, true,
  List, [], ◌∷◌, map, Option, none, some, GoMap, lookup, insert, lookup-insert, str_eq, str_eq_iff,
  keep, All, Option-cases, Bool-cases, keep-All,
}
use cledyu.Dashboard.{
  Lab, Completion, InProgressLab, DashboardLab, LabStatus, Found, not_found, broken, session,
  Answers, Shown, fails, dashboard, items, completed_at_of, started_of, row_for, no_lab, or_zero,
  dashboard_rows, ids_of, build_dashboard, is_live, of_session, of_active, still_active,
  completed_session_of, is_open, overridden, lab_statuses, get_my_lab_statuses,
}

-- What is found in a map of sessions satisfies `Q`.
abbrev Finds : (String → Type 0) → GoMap String → Type 0
Finds Q m = (id s : String) → lookup id m ≡ some s → Q s

started-Finds :
    (Q : String → Type 0) (l : List InProgressLab) (m : GoMap String)
    → All (λ p. Q p.session_id) l
    → Finds Q m
    → Finds Q (started_of l m)
unfolding started_of
started-Finds Q [] m a o = o
started-Finds Q (p ∷ l) m (a, as') o =
    started-Finds Q l (insert p.lab_id p.session_id m) as' (λ id s h.
      elim (Bool-cases (str_eq p.lab_id id)) [
        | inl e ↦
            let same : p.session_id ≡ s =
              cc (rw e at (sym (lookup-insert p.lab_id id p.session_id m) ∙ h)) in
            subst Q same a
        | inr e ↦ o id s (rw e at (sym (lookup-insert p.lab_id id p.session_id m) ∙ h))
      ])

nothing : (Q : String → Type 0) → Finds Q []
unfolding lookup
nothing Q id s h = absurd (cc h)

-- An item that sends the user on names a session with `Q`.
abbrev pub SendsTo : (String → Type 0) → LabStatus → Type 0
SendsTo Q i = str_eq i.status "in_progress" ≡ true → Q i.session_id

module _ (Q : String → Type 0) where
  row-SendsTo :
      (id : String) (lab : Lab) (t : Option ℕ) (s : Option String)
      → ((x : String) → s ≡ some x → Q x)
      → SendsTo Q (overridden (row_for id lab t s) none "")
  unfolding str_eq
  row-SendsTo id lab (some t) s h = λ e. absurd (cc e)
  row-SendsTo id lab none (some s) h = λ e. h s refl
  row-SendsTo id lab none none h = λ e. absurd (cc e)

  overridden-SendsTo :
      (r : DashboardLab) (o : Option String) (done : String)
      → ((x : String) → o ≡ some x → Q x)
      → SendsTo Q (overridden r none "")
      → SendsTo Q (overridden r o done)
  overridden-SendsTo r none done k h = h
  overridden-SendsTo r (some x) done k h = elim (Bool-cases (str_eq done x)) [
    | inl e ↦ rw e h
    | inr e ↦ rw e (λ p. k x refl)
  ]

  rows-SendsTo :
      (labs : GoMap Lab) (done : GoMap ℕ) (started active : GoMap String)
      (finished : String → String) (ids : List String)
      → Finds Q started
      → Finds Q active
      → All (SendsTo Q) (
          map
            (λ r. overridden r (lookup r.lab_id active) (finished r.lab_id))
            (dashboard_rows labs done started ids))
  unfolding dashboard_rows
  rows-SendsTo labs done started active finished [] s a = tt
  rows-SendsTo labs done started active finished (id ∷ ids) s a = (
    overridden-SendsTo
        (row_for id (or_zero no_lab (lookup id labs)) (lookup id done) (lookup id started)) _ _
        (λ x e. a _ x e) (row-SendsTo id _ (lookup id done) (lookup id started) (λ x e. s id x e)),
    rows-SendsTo labs done started active finished ids s a,
  )

  statuses-SendsTo :
      (labs : GoMap Lab) (completions : List Completion) (l : List InProgressLab)
      → All (λ p. Q p.session_id) l
      → All (SendsTo Q) (lab_statuses labs completions l)
  unfolding lab_statuses build_dashboard
  statuses-SendsTo labs completions l h =
      let completed : GoMap String = completed_session_of completions [] in
      let open_ones : List InProgressLab = keep (is_open completed) l in
      let finds : Finds Q (started_of open_ones []) =
        started-Finds Q open_ones [] (keep-All (λ p. Q p.session_id) (is_open completed) l h)
          (nothing Q) in
      rows-SendsTo labs (completed_at_of completions []) (started_of open_ones [])
        (started_of open_ones []) (λ id. or_zero "" (lookup id completed)) (ids_of labs) finds finds

keep-holds : {A : Type 0} (p : A → Bool) (l : List A) → All (λ x. p x ≡ true) (keep p l)
keep-holds p [] = tt
keep-holds p (x ∷ l) = elim (Bool-cases (p x)) [
  | inl e ↦ rw e (e, keep-holds p l)
  | inr e ↦ rw e (keep-holds p l)
]

-- The provider knows the session as the user's active one, and shows it on its way or ready, with an
-- expiry that lies ahead.
abbrev pub Live : Answers → ℕ → String → Type 0
Live a now sid =
    (a.active ≡ some sid)
    × ((status : String) × (expires_at : ℕ) × (a.get sid ≡ session status expires_at)
        × ((status ≡ "provisioning") ⊎ (status ≡ "ready"))
        × (now < expires_at))

live_parts :
    (status : String) (expires_at now : ℕ)
    → is_live (session status expires_at) now ≡ true
    → ((status ≡ "provisioning") ⊎ (status ≡ "ready")) × (now < expires_at)
live_parts status expires_at now h =
    let (later, runs) = and-eq-true (ltb now expires_at) _ h in
    (
      elim (Bool-cases (str_eq status "provisioning")) [
        | inl e ↦ inl ((str_eq_iff status "provisioning").0 e)
        | inr e ↦ inr ((str_eq_iff status "ready").0 (rw e at runs))
      ],
      ground (arith, later),
    )

abbrev AllLive : Answers → ℕ → Option (List InProgressLab) → Type 0
AllLive a now none = Unit {0}
AllLive a now (some l) = All (λ p. Live a now p.session_id) l

All-map : {A : Type 0} (P Q : A → Type 0) (l : List A) → ((x : A) → P x → Q x) → All P l → All Q l
All-map P Q [] f h = tt
All-map P Q (x ∷ l) f (h, hs) = (f x h, All-map P Q l f hs)

of_session-AllLive :
    (a : Answers) (now : ℕ) (sid : String) (g : Found) (l : List InProgressLab)
    → a.active ≡ some sid
    → a.get sid ≡ g
    → AllLive a now (of_session sid g now l)
of_session-AllLive a now sid broken l h e = tt
of_session-AllLive a now sid not_found l h e = tt
of_session-AllLive a now sid (session st exp) l h e =
    elim (Bool-cases (is_live (session st exp) now)) [
      | inl b ↦ rw b (
          All-map (λ p. str_eq p.session_id sid ≡ true) (λ p. Live a now p.session_id)
            (keep (λ p. str_eq p.session_id sid) l)
            (λ p q.
              subst (Live a now) (sym ((str_eq_iff p.session_id sid).0 q))
                (h, (let (runs, later) = live_parts st exp now b in (st, exp, e, runs, later))))
            (keep-holds (λ p. str_eq p.session_id sid) l))
      | inr b ↦ rw b tt
    ]

of_active-AllLive :
    (a : Answers) (now : ℕ) (l : List InProgressLab) (o : Option String)
    → a.active ≡ o
    → AllLive a now (of_active a now l o)
of_active-AllLive a now l none h = tt
of_active-AllLive a now l (some sid) h = elim (Bool-cases (str_eq sid "")) [
  | inl e ↦ rw e tt
  | inr e ↦ rw e (of_session-AllLive a now sid (a.get sid) l h refl)
]

still_active-AllLive :
    (a : Answers) (now : ℕ) (l : List InProgressLab) → AllLive a now (still_active true a now l)
unfolding still_active
still_active-AllLive a now [] = tt
still_active-AllLive a now (p ∷ l) = of_active-AllLive a now (p ∷ l) a.active refl

-- What the user is sent on to.
abbrev pub Sent : Answers → ℕ → Shown → Type 0
Sent a now (items l) = All (SendsTo (Live a now)) l
Sent a now (fails n) = Unit
Sent a now (dashboard d) = Unit

-- Where there is a session provider: whatever the database has of labs in progress, every item of the
-- answer that is in progress names the session that the provider knows as the user's active one, and
-- that session is provisioning or ready and has not expired.
pub get_my_lab_statuses-Live :
    (labs : GoMap Lab) (now : ℕ) (a : Answers)
    → Sent a now (get_my_lab_statuses labs true now (some a))
unfolding get_my_lab_statuses
get_my_lab_statuses-Live labs now a = elim (Option-cases a.completions) [
  | inl e ↦ rw e tt
  | inr (completions, e) ↦ rw e (elim (Option-cases a.in_progress) [
    | inl f ↦ rw f tt
    | inr (l, f) ↦ rw f (elim (Option-cases (still_active true a now l)) [
      | inl g ↦ rw g tt
      | inr (l', g) ↦ rw g (
          statuses-SendsTo (Live a now) labs completions l'
            (subst (AllLive a now) g (still_active-AllLive a now l)))
    ])
  ])
]
