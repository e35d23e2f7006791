-- ===== src/Dashboard/Rows.antt =====
-- buildDashboard: the rows and the counts are those of the completions and the labs in progress.
use cledyu.Base.{
  ℕ, zero, suc, ◌+◌, ◌≤◌, length, String, ◌≡◌, refl, ap, sym, subst, ◌∙◌, Bool, false, not, ◌&&◌,
  ◌||◌, List, [], ◌∷◌, map, Option, none, some, arith, GoMap, lookup, insert, lookup-insert, str_eq,
  str_eq_iff, count, All,
}
use cledyu.Dashboard.Order.{Ascending, sort_ids-Ascending, count-sort_ids}
use cledyu.Dashboard.{
  ids_of, Lab, Completion, InProgressLab, DifficultyProgress, DashboardLab, completed_at_of,
  started_of, row_for, no_lab, or_zero, dashboard_rows, no_progress, counted, by_difficulty_of,
  no_difficulties, build_dashboard, is_some, percent, DashboardSummary,
}

abbrev pub any : {A : Type 0} → (A → Bool) → List A → Bool
any p [] = false
any p (x ∷ l) = p x || any p l

completed_at_of-any :
    (id : String) (l : List Completion) (m : GoMap ℕ)
    → is_some (lookup id (completed_at_of l m))
      ≡ (any (λ c. str_eq c.lab_id id) l || is_some (lookup id m))
unfolding completed_at_of
completed_at_of-any id [] m = refl
completed_at_of-any id (c ∷ l) m = ground (
  arith,
  completed_at_of-any id l (insert c.lab_id c.completed_at m),
  lookup-insert c.lab_id id c.completed_at m,
)

started_of-any :
    (id : String) (l : List InProgressLab) (m : GoMap String)
    → is_some (lookup id (started_of l m))
      ≡ (any (λ p. str_eq p.lab_id id) l || is_some (lookup id m))
unfolding started_of
started_of-any id [] m = refl
started_of-any id (p ∷ l) m = ground (
  arith,
  started_of-any id l (insert p.lab_id p.session_id m),
  lookup-insert p.lab_id id p.session_id m,
)

-- What a row says of the lab is so.
abbrev pub Says : List Completion → List InProgressLab → DashboardLab → Type 0
Says completions in_progress r =
    (str_eq r.status "completed" ≡ any (λ c. str_eq c.lab_id r.lab_id) completions)
    × (str_eq r.status "in_progress" ≡ (
        not (any (λ c. str_eq c.lab_id r.lab_id) completions)
        && any (λ p. str_eq p.lab_id r.lab_id) in_progress))

row_for-Says :
    (completions : List Completion) (in_progress : List InProgressLab) (id : String) (lab : Lab)
    (t : Option ℕ) (s : Option String)
    → is_some t ≡ (any (λ c. str_eq c.lab_id id) completions || false)
    → is_some s ≡ (any (λ p. str_eq p.lab_id id) in_progress || false)
    → Says completions in_progress (row_for id lab t s)
unfolding str_eq
row_for-Says completions in_progress id lab (some t) s h k = ground (arith, h, k)
row_for-Says completions in_progress id lab none (some s) h k = ground (arith, h, k)
row_for-Says completions in_progress id lab none none h k = ground (arith, h, k)

rows-Says :
    (labs : GoMap Lab) (ids : List String) (completions : List Completion)
    (in_progress : List InProgressLab)
    → All
        (Says completions in_progress)
        (dashboard_rows labs (completed_at_of completions []) (started_of in_progress []) ids)
unfolding dashboard_rows lookup
rows-Says labs [] completions in_progress = tt
rows-Says labs (id ∷ ids) completions in_progress = (
  row_for-Says completions in_progress id _ _ _ (completed_at_of-any id completions [])
      (started_of-any id in_progress []),
  rows-Says labs ids completions in_progress,
)

abbrev pub of_difficulty : String → DashboardLab → Bool
of_difficulty d r = str_eq r.difficulty d

abbrev pub done_of : String → DashboardLab → Bool
done_of d r = str_eq r.difficulty d && str_eq r.status "completed"

abbrev pub progress_in : String → GoMap DifficultyProgress → DifficultyProgress
progress_in d m = or_zero no_progress (lookup d m)

by_difficulty_of-counts :
    (d : String) (l : List DashboardLab) (m : GoMap DifficultyProgress)
    → ((progress_in d (by_difficulty_of l m)).total
        ≡ (progress_in d m).total + count (of_difficulty d) l)
      × ((progress_in d (by_difficulty_of l m)).done ≡ (progress_in d m).done + count (done_of d) l)
unfolding by_difficulty_of
by_difficulty_of-counts d [] m = omega arith
by_difficulty_of-counts d (r ∷ l) m = ground (
  arith,
  by_difficulty_of-counts d l (insert r.difficulty (counted r (progress_in r.difficulty m)) m),
  lookup-insert r.difficulty d (counted r (progress_in r.difficulty m)) m,
  str_eq_iff r.difficulty d,
)

none_yet : (d : String) → progress_in d no_difficulties ≡ no_progress
unfolding lookup
none_yet d = ground arith

percent-le : (done total : ℕ) → percent done total ≤ 100
unfolding percent
percent-le done zero = omega arith
percent-le done (suc n) = ground arith

rows-ids :
    (labs : GoMap Lab) (completed : GoMap ℕ) (started : GoMap String) (ids : List String)
    → map (λ r. r.lab_id) (dashboard_rows labs completed started ids) ≡ ids
unfolding dashboard_rows
rows-ids labs completed started [] = refl
rows-ids labs completed started (id ∷ ids) = cc (
  row-id id (or_zero no_lab (lookup id labs)) (lookup id completed) (lookup id started),
  rows-ids labs completed started ids,
)
  where
    row-id :
        (id : String) (lab : Lab) (t : Option ℕ) (s : Option String)
        → (row_for id lab t s).lab_id ≡ id
    row-id id lab (some t) s = refl
    row-id id lab none (some s) = refl
    row-id id lab none none = refl

-- The dashboard has a row for each key of the catalogue, as often as it is a key, in ascending order of the code
-- points. A row says completed exactly if a completion is of its lab, and in progress exactly if none is
-- and a session is of its lab. For every difficulty the summary counts the rows of that difficulty, and
-- those of them that are completed; and the percentage is at most 100.
pub build_dashboard-Says :
    (labs : GoMap Lab) (completions : List Completion) (in_progress : List InProgressLab)
    → let b : DashboardSummary × List DashboardLab = build_dashboard labs completions in_progress in
      Ascending (map (λ r. r.lab_id) b.1)
      × ((id : String)
          → count (str_eq id) (map (λ r. r.lab_id) b.1) ≡ count (str_eq id) (map (λ p. p.0) labs))
      × All (Says completions in_progress) b.1
      × ((d : String)
          → ((progress_in d b.0.by_difficulty).total ≡ count (of_difficulty d) b.1)
            × ((progress_in d b.0.by_difficulty).done ≡ count (done_of d) b.1))
      × (b.0.completion_pct ≤ 100)
unfolding build_dashboard
build_dashboard-Says labs completions in_progress =
    let completed : GoMap ℕ = completed_at_of completions [] in
    let started : GoMap String = started_of in_progress [] in
    let ids : List String = ids_of labs in
    let same = rows-ids labs completed started ids in
    (
      subst Ascending (sym same) (sort_ids-Ascending (map (λ p. p.0) labs)),
      λ id. ap (count (str_eq id)) same ∙ count-sort_ids (str_eq id) (map (λ p. p.0) labs),
      rows-Says labs ids completions in_progress,
      λ d. omega (
        arith,
        by_difficulty_of-counts d (dashboard_rows labs completed started ids) no_difficulties,
        ap (λ p. p.total) (none_yet d),
        ap (λ p. p.done) (none_yet d),
      ),
      percent-le (length completions) (length ids),
    )
