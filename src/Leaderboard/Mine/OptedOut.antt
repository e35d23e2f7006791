-- ===== src/Leaderboard/Mine/OptedOut.antt =====
-- What a user who has opted out sees of their own work.
use cledyu.Base.{
  ℕ, suc, ◌+◌, String, ◌≡◌, refl, sym, ap, subst, ◌∙◌, ◌⊎◌, inl, inr, Bool, true, false, List, [],
  ◌∷◌, Option, none, some, GoMap, arith, str_eq, ltb, find, keep, All, Bool-cases,
}
use cledyu.Sql.{Pg, query}
use cledyu.Sql.Atomic.{Done, exec-Done, query-is, query-keeps}
use cledyu.Sql.Tables.{Tables, Completion, User}
use cledyu.Sql.Tables.Rows.{merged, find-upsert_self}
use cledyu.Sql.Users.{
  is_user, hide, new_user, set_leaderboard_hidden, latest_in, latest_first,
  list_completions_by_user, leaderboard_rows,
}
use cledyu.Sql.Users.Hidden.{
  Op, do_ops, Hidden, KeepsHidden, ops-Hidden, Lacks, NotShown, ops-NotShown,
}
use cledyu.Leaderboard.{
  Row, Entry, weight_for_lab, add_row, aggregate, before, place, sort, number, rank_entries,
}
use cledyu.Leaderboard.Mine.{
  MyProgress, Answer, fails, gives, score_from, progress_of, get_my_progress, preference,
  set_my_preferences,
}
use cledyu.Dashboard.{rank_in, user_rank}

-- No entry is the user's.
abbrev Unranked : String → List Entry → Type 0
Unranked uid l = All (λ e. str_eq e.user_id uid ≡ false) l

module _ (uid : String) (weight : String → ℕ) where
  add_row-Unranked :
      (r : Row) (l : List Entry)
      → str_eq r.row_user uid ≡ false
      → Unranked uid l
      → Unranked uid (add_row weight r l)
  unfolding add_row
  add_row-Unranked r [] h hs = (h, tt)
  add_row-Unranked r (e ∷ l) h (g, gs) = elim (Bool-cases (str_eq e.user_id r.row_user)) [
    | inl b ↦ rw b (g, gs)
    | inr b ↦ rw b (g, add_row-Unranked r l h gs)
  ]

  aggregate-Unranked :
      (rows : List Row) (l : List Entry)
      → Lacks uid rows
      → Unranked uid l
      → Unranked uid (aggregate weight rows l)
  unfolding aggregate
  aggregate-Unranked [] l h hs = hs
  aggregate-Unranked (r ∷ rows) l (h, hs) gs =
      aggregate-Unranked rows (add_row weight r l) hs (add_row-Unranked r l h gs)

  place-Unranked :
      (e : Entry) (l : List Entry)
      → str_eq e.user_id uid ≡ false
      → Unranked uid l
      → Unranked uid (place e l)
  unfolding place
  place-Unranked e [] h hs = (h, tt)
  place-Unranked e (f ∷ l) h (g, gs) = elim (Bool-cases (before f e)) [
    | inl b ↦ rw b (g, place-Unranked e l h gs)
    | inr b ↦ rw b (h, (g, gs))
  ]

  sort-Unranked : (l : List Entry) → Unranked uid l → Unranked uid (sort l)
  unfolding sort
  sort-Unranked [] h = tt
  sort-Unranked (e ∷ l) (h, hs) = place-Unranked e (sort l) h (sort-Unranked l hs)

  number-Unranked : (i : ℕ) (l : List Entry) → Unranked uid l → Unranked uid (number i l)
  unfolding number
  number-Unranked i [] h = tt
  number-Unranked i (e ∷ l) (h, hs) = (h, number-Unranked (suc i) l hs)

  Unranked-rank : (l : List Entry) → Unranked uid l → rank_in uid l ≡ 0
  unfolding rank_in
  Unranked-rank [] h = refl
  Unranked-rank (e ∷ l) (h, hs) = rw (h, rank_in) (Unranked-rank l hs)

  score-latest_in :
      (c : Completion) (l : List Completion)
      → score_from weight (latest_in (λ x. x.completed_at) c l)
        ≡ weight c.lab_id + score_from weight l
  unfolding score_from latest_in
  score-latest_in c [] = refl
  score-latest_in c (d ∷ l) = elim (Bool-cases (ltb c.completed_at d.completed_at)) [
    | inl b ↦ rw b (omega (arith, score-latest_in c l))
    | inr b ↦ rw b refl
  ]

  score-latest_first :
      (l : List Completion)
      → score_from weight (latest_first (λ x. x.completed_at) l) ≡ score_from weight l
  unfolding score_from latest_first
  score-latest_first [] = refl
  score-latest_first (c ∷ l) =
      omega (arith, score-latest_in c (latest_first (λ x. x.completed_at) l), score-latest_first l)

-- A user who stays off the board: the rank is 0, and the score is that of the labs completed.
abbrev pub OffBoard : (String → ℕ) → String → Tables → Answer MyProgress → Type 0
OffBoard weight uid t (fails n) = n ≡ 500
OffBoard weight uid t (gives p) =
    (p.rank ≡ 0)
    × (p.score ≡ score_from weight (keep (λ c. str_eq c.user_id uid) t.lab_completions))

module _ (order : List Entry → List Entry) (labs : GoMap String) (uid : String)
    (same : (P : Entry → Type 0) (l : List Entry) → All P l → All P (order l)) where
  rank-Lacks :
      (o : Option (List Row))
      → NotShown uid o
      → user_rank (rank_entries order (weight_for_lab labs)) uid o ≡ 0
  unfolding user_rank rank_entries
  rank-Lacks none h = refl
  rank-Lacks (some rows) h =
      let weight : String → ℕ = weight_for_lab labs in
      Unranked-rank uid weight _ (
        number-Unranked uid weight 1 _ (
          sort-Unranked uid weight _ (
            same (λ e. str_eq e.user_id uid ≡ false) _
              (aggregate-Unranked uid weight rows [] h tt))))

  progress_of-OffBoard :
      (t : Tables) (o : Option (List Completion) × Pg Tables)
      → (o.0 ≡ none)
        ⊎ (o.0
            ≡ some (
                latest_first
                  (λ x. x.completed_at)
                  (keep (λ c. str_eq c.user_id uid) t.lab_completions)))
      → NotShown uid (leaderboard_rows none o.1).0
      → OffBoard (weight_for_lab labs) uid t (progress_of order labs uid o).0
  progress_of-OffBoard t (none, pg) h hid = refl
  progress_of-OffBoard t (some l, pg) (inl h) hid = absurd (cc h)
  progress_of-OffBoard t (some l, pg) (inr h) hid = (
    rank-Lacks (leaderboard_rows none pg).0 hid,
    ap (score_from (weight_for_lab labs)) (cc h)
        ∙ score-latest_first uid (weight_for_lab labs)
            (keep (λ c. str_eq c.user_id uid) t.lab_completions),
  )

merged-hidden :
    (new : User) (o : Option User)
    → new.leaderboard_hidden ≡ true
    → (merged new (λ u. record u { leaderboard_hidden = true }) o).leaderboard_hidden ≡ true
merged-hidden new none h = h
merged-hidden new (some u) h = refl

hide-Hidden : (uid : String) (now : ℕ) (t : Tables) → Hidden uid (hide uid true now t)
hide-Hidden uid now t =
    let new : User = record (new_user uid "" "" "student" now) { leaderboard_hidden = true } in
    (
      merged new (λ u. record u { leaderboard_hidden = true }) (find (is_user uid) t.users),
      find-upsert_self (λ x. x.id) uid new (λ u. record u { leaderboard_hidden = true }) t.users
          refl (λ u e. e),
      merged-hidden new (find (is_user uid) t.users) refl,
    )

kept-tables :
    (t t' : Tables) (pg : Pg Tables) (r : Bool × Pg Tables)
    → Done (some t') t r
    → preference true r ≡ (gives true, some pg)
    → pg.tables ≡ t'
kept-tables t t' pg (true, q) h e = cc (h, e)
kept-tables t t' pg (false, q) h e = absurd (cc e)

opted-Hidden :
    (uid : String) (now : ℕ) (before after : Pg Tables)
    → set_my_preferences uid (some true) now (some before) ≡ (gives true, some after)
    → Hidden uid after.tables
unfolding set_my_preferences set_leaderboard_hidden
opted-Hidden uid now before after e =
    let done : after.tables ≡ hide uid true now before.tables =
      kept-tables before.tables (hide uid true now before.tables) after _
        (exec-Done (λ t. some (hide uid true now t)) before) e in
    subst (Hidden uid) (sym done) (hide-Hidden uid now before.tables)

-- Once SetMyPreferences has answered that the user opts out, and whatever calls come behind, logins and
-- further completions among them, in any order and whatever fails in them, unless one of them is the
-- user's own to be shown again: GetMyProgress either fails with 500, or says rank 0 and as a score the
-- weights of all the labs that the user has completed. Where what Go walks over is in the map.
pub opted_out-OffBoard :
    (order : List Entry → List Entry) (labs : GoMap String) (uid : String) (now : ℕ)
    (before after : Pg Tables) (l : List (Op × ℕ))
    → ((P : Entry → Type 0) (m : List Entry) → All P m → All P (order m))
    → set_my_preferences uid (some true) now (some before) ≡ (gives true, some after)
    → All (λ o. KeepsHidden uid o.0) l
    → OffBoard
        (weight_for_lab labs)
        uid
        (do_ops l after).tables
        (get_my_progress order labs uid (some (do_ops l after))).0
unfolding get_my_progress list_completions_by_user
opted_out-OffBoard order labs uid now before after l same e k =
    let pg : Pg Tables = do_ops l after in
    let q = λ (t : Tables).
      latest_first (λ c. c.completed_at) (keep (λ c. str_eq c.user_id uid) t.lab_completions) in
    let hid : Hidden uid pg.tables =
      ops-Hidden uid l after (opted-Hidden uid now before after e) k in
    progress_of-OffBoard order labs uid same pg.tables (query q pg) (query-is q pg)
      (ops-NotShown uid [] (query q pg).1 none (subst (Hidden uid) (sym (query-keeps q pg)) hid) tt)
