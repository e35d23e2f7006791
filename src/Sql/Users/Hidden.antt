-- ===== src/Sql/Users/Hidden.antt =====
-- Who has opted out of the leaderboard stays out, and a first completion stays as it is, whatever calls
-- come behind.
use cledyu.Base.{
  ℕ, String, ◌≡◌, refl, sym, ap, subst, ◌∙◌, ◌⊎◌, inl, inr, Bool, true, false, List, [], ◌∷◌,
  Option, none, some, str_eq, str_eq_iff, find, find-append, keep, All, Bool-cases, Option-cases,
}
use cledyu.Sql.{Pg}
use cledyu.Sql.Atomic.{exec-change, query-is}
use cledyu.Sql.Tables.{Tables, User, Completion, upsert}
use cledyu.Sql.Tables.Rows.{
  changed, merged, find-update_self, find-update_other, find-upsert_self, find-upsert_other,
}
use cledyu.Sql.Users.{
  is_user, log_in, upsert_user, hide, set_leaderboard_hidden, give_role, set_user_role,
  is_completion, add_completion, record_completion, joined, row_of, since, leaderboard_rows,
}
use cledyu.Leaderboard.{Row}

-- The calls that write the users and the completions; a clock goes with each.
pub data Op : Type 0 where
  logs_in : String → String → String → String → Op
  sets_hidden : String → Bool → Op
  sets_role : String → String → Op
  completes : String → String → String → Op

abbrev pub change : Op → ℕ → Tables → Tables
change (logs_in id email name role) now t = log_in id email name role now t
change (sets_hidden id hidden) now t = hide id hidden now t
change (sets_role id role) now t = give_role id role t
change (completes uid lab session) now t = add_completion uid lab session now t

abbrev pub do_op : Op → ℕ → Pg Tables → Bool × Pg Tables
do_op (logs_in id email name role) now = upsert_user id email name role now
do_op (sets_hidden id hidden) now = set_leaderboard_hidden id hidden now
do_op (sets_role id role) now = set_user_role id role
do_op (completes uid lab session) now = record_completion uid lab session now

abbrev pub do_ops : List (Op × ℕ) → Pg Tables → Pg Tables
do_ops [] pg = pg
do_ops ((op, now) ∷ l) pg = do_ops l (do_op op now pg).1

do_op-change :
    (op : Op) (now : ℕ) (pg : Pg Tables)
    → ((do_op op now pg).1.tables ≡ pg.tables)
      ⊎ ((do_op op now pg).1.tables ≡ change op now pg.tables)
unfolding upsert_user set_leaderboard_hidden set_user_role record_completion
do_op-change (logs_in id email name role) now pg = exec-change (log_in id email name role now) pg
do_op-change (sets_hidden id hidden) now pg = exec-change (hide id hidden now) pg
do_op-change (sets_role id role) now pg = exec-change (give_role id role) pg
do_op-change (completes uid lab session) now pg =
    exec-change (add_completion uid lab session now) pg

-- What every change keeps, the calls keep.
ops-keep :
    (P : Tables → Type 0) (Fits : Op → Type 0)
    → ((op : Op) (now : ℕ) (t : Tables) → Fits op → P t → P (change op now t))
    → (l : List (Op × ℕ)) (pg : Pg Tables) → All (λ o. Fits o.0) l
    → P pg.tables
    → P (do_ops l pg).tables
ops-keep P Fits keeps [] pg f h = h
ops-keep P Fits keeps ((op, now) ∷ l) pg (f, fs) h =
    ops-keep P Fits keeps l (do_op op now pg).1 fs (elim (do_op-change op now pg) [
      | inl same ↦ rw same h
      | inr done ↦ rw done (keeps op now pg.tables f h)
    ])

-- The user has a row, and is hidden.
abbrev pub Hidden : String → Tables → Type 0
Hidden uid t = (u : User) × (find (is_user uid) t.users ≡ some u) × (u.leaderboard_hidden ≡ true)

-- Not the user's own decision to be shown again.
abbrev pub KeepsHidden : String → Op → Type 0
KeepsHidden uid (logs_in id email name role) = Unit {0}
KeepsHidden uid (sets_hidden id hidden) = (str_eq id uid ≡ false) ⊎ (hidden ≡ true)
KeepsHidden uid (sets_role id role) = Unit {0}
KeepsHidden uid (completes u lab session) = Unit {0}

upsert-Hidden :
    (uid id : String) (new : User) (f : User → User) (t : Tables)
    → new.id ≡ id
    → ((u : User) → u.id ≡ id → (f u).id ≡ id)
    → ((u : User)
        → str_eq id uid ≡ true
        → u.leaderboard_hidden ≡ true
        → (f u).leaderboard_hidden ≡ true)
    → Hidden uid t
    → Hidden uid (record t { users = upsert (is_user id) new f t.users })
upsert-Hidden uid id new f t e h k (u, found, hid) = elim (Bool-cases (str_eq id uid)) [
  | inl b ↦
      let b' : id ≡ uid = (str_eq_iff id uid).0 b in
      (
        f u,
        subst (λ j. find (is_user j) (upsert (is_user id) new f t.users) ≡ some (f u)) b'
            (find-upsert_self (λ x. x.id) id new f t.users e h
              ∙ ap (λ o. some (merged new f o))
                  (subst (λ j. find (is_user j) t.users ≡ some u) (sym b') found)),
        k u b hid,
      )
  | inr b ↦ (u, find-upsert_other (λ x. x.id) id uid new f t.users e h b ∙ found, hid)
]

change-Hidden :
    (uid : String) (op : Op) (now : ℕ) (t : Tables)
    → KeepsHidden uid op
    → Hidden uid t
    → Hidden uid (change op now t)
change-Hidden uid (logs_in id email name role) now t k h =
    upsert-Hidden uid id _ _ t refl (λ u e. e) (λ u b e. e) h
change-Hidden uid (sets_hidden id hidden) now t (inl other) h =
    upsert-Hidden uid id _ _ t refl (λ u e. e) (λ u b e. cc (other, b)) h
change-Hidden uid (sets_hidden id hidden) now t (inr on) h =
    upsert-Hidden uid id _ _ t refl (λ u e. e) (λ u b e. on) h
change-Hidden uid (sets_role id role) now t k (u, found, hid) = elim (Bool-cases (str_eq id uid)) [
  | inl b ↦
      let b' : id ≡ uid = (str_eq_iff id uid).0 b in
      (
        record u { role = role },
        subst (λ j. find (is_user j) (give_role id role t).users ≡ some (record u { role = role }))
            b'
            (find-update_self (λ x. x.id) id (λ x. record x { role = role }) t.users (λ x. refl)
              ∙ ap (changed (λ x. x.id) (λ x. record x { role = role }))
                  (subst (λ j. find (is_user j) t.users ≡ some u) (sym b') found)),
        hid,
      )
  | inr b ↦ (
    u,
    find-update_other (λ x. x.id) id uid (λ x. record x { role = role }) t.users (λ x. refl) b
        ∙ found,
    hid,
  )
]
change-Hidden uid (completes u lab session) now t k h =
    elim (Option-cases (find (is_completion u lab) t.lab_completions)) [
      | inl e ↦ rw (e, add_completion) h
      | inr (c, e) ↦ rw (e, add_completion) h
    ]

-- Who is hidden stays so.
pub ops-Hidden :
    (uid : String) (l : List (Op × ℕ)) (pg : Pg Tables)
    → Hidden uid pg.tables
    → All (λ o. KeepsHidden uid o.0) l
    → Hidden uid (do_ops l pg).tables
ops-Hidden uid l pg h k = ops-keep (Hidden uid) (KeepsHidden uid) (change-Hidden uid) l pg k h

abbrev pub Lacks : String → List Row → Type 0
Lacks uid l = All (λ r. str_eq r.row_user uid ≡ false) l

row-Lacks :
    (uid : String) (users : List User) (u : User) (c : Completion) (o : Option User) (l : List Row)
    → find (is_user uid) users ≡ some u
    → u.leaderboard_hidden ≡ true
    → find (is_user c.user_id) users ≡ o
    → Lacks uid l
    → Lacks uid (row_of c o l)
row-Lacks uid users u c none l found hid e h = h
row-Lacks uid users u c (some v) l found hid e h = elim (Bool-cases v.leaderboard_hidden) [
  | inl b ↦ rw b h
  | inr b ↦ rw b (elim (Bool-cases (str_eq c.user_id uid)) [
    | inl same ↦
        let v_is : v ≡ u = cc (found, e, (str_eq_iff c.user_id uid).0 same) in
        cc (ap (λ x. x.leaderboard_hidden) v_is, hid, b)
    | inr other ↦ (other, h)
  ])
]

joined-Lacks :
    (uid : String) (users : List User) (u : User) (l : List Completion)
    → find (is_user uid) users ≡ some u
    → u.leaderboard_hidden ≡ true
    → Lacks uid (joined users l)
unfolding joined
joined-Lacks uid users u [] found hid = tt
joined-Lacks uid users u (c ∷ l) found hid =
    row-Lacks uid users u c _ _ found hid refl (joined-Lacks uid users u l found hid)

abbrev pub NotShown : String → Option (List Row) → Type 0
NotShown uid none = Unit {0}
NotShown uid (some l) = Lacks uid l

-- For a user who is hidden, the calls behind, logins and changes of role among them, in any order and
-- whatever fails in them: unless one of them is the user's own to be shown again, no row of the
-- leaderboard is the user's, of all time or since an instant.
pub ops-NotShown :
    (uid : String) (l : List (Op × ℕ)) (pg : Pg Tables) (s : Option ℕ)
    → Hidden uid pg.tables
    → All (λ o. KeepsHidden uid o.0) l
    → NotShown uid (leaderboard_rows s (do_ops l pg)).0
unfolding leaderboard_rows
ops-NotShown uid l pg s h k =
    let pg' : Pg Tables = do_ops l pg in
    let h' : Hidden uid pg'.tables = ops-Hidden uid l pg h k in
    elim (query-is (λ t. joined t.users (keep (since s) t.lab_completions)) pg') [
      | inl e ↦ rw e tt
      | inr e ↦ rw e (
          joined-Lacks uid pg'.tables.users h'.0 (keep (since s) pg'.tables.lab_completions) h'.1
            h'.2)
    ]

anything : (l : List (Op × ℕ)) → All (λ o. Unit {0}) l
anything [] = tt
anything (o ∷ l) = (tt, anything l)

abbrev pub completion_of : String → String → Tables → Option Completion
completion_of uid lab t = find (is_completion uid lab) t.lab_completions

change-completion :
    (uid lab : String) (c : Completion) (op : Op) (now : ℕ) (t : Tables)
    → completion_of uid lab t ≡ some c
    → completion_of uid lab (change op now t) ≡ some c
change-completion uid lab c (logs_in id email name role) now t h = h
change-completion uid lab c (sets_hidden id hidden) now t h = h
change-completion uid lab c (sets_role id role) now t h = h
change-completion uid lab c (completes u l session) now t h =
    elim (Option-cases (completion_of u l t)) [
      | inl e ↦
          rw (e, add_completion)
            (rw (find-append (is_completion uid lab) t.lab_completions _) (rw h refl))
      | inr (d, e) ↦ rw (e, add_completion) h
    ]

-- What is recorded as the first completion of a lab, its session and its instant, stays so whatever
-- calls come behind, other completions of the lab among them, and whatever fails in them.
pub ops-completion :
    (uid lab : String) (c : Completion) (l : List (Op × ℕ)) (pg : Pg Tables)
    → completion_of uid lab pg.tables ≡ some c
    → completion_of uid lab (do_ops l pg).tables ≡ some c
ops-completion uid lab c l pg h =
    ops-keep (λ t. completion_of uid lab t ≡ some c) (λ op. Unit {0})
      (λ op now t f p. change-completion uid lab c op now t p) l pg (anything l) h
