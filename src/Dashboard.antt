-- ===== src/Dashboard.antt =====
-- apps/api/internal/api/handlers/dashboard.go: the state of each lab for a user. The database, the
-- session provider and the ranking are arguments with the answers that they give; a Go map is
-- an association list.
pub mod Order
pub mod Rows
pub mod Statuses
mod Samples
use cledyu.Base.{
  codes, zero, ℕ, suc, ◌+◌, ◌*◌, ◌/◌, String, Bool, true, false, not, ◌&&◌, ◌||◌, List, [], ◌∷◌,
  map, Option, none, some, GoMap, lookup, insert, str_eq, ltb, ◌==◌, length, take, keep, find,
  if◌then◌else◌,
}
use cledyu.Leaderboard.{Row, Entry}

-- content.LabContent, as far as it is read here
pub record Lab : Type 0 where
  pub title : String
  pub difficulty : String

-- store.Completion and store.InProgressLab
pub record Completion : Type 0 where
  pub lab_id : String
  pub session_id : String
  pub completed_at : ℕ

pub record InProgressLab : Type 0 where
  pub lab_id : String
  pub session_id : String
  pub all_passed : Bool

pub record DifficultyProgress : Type 0 where
  pub done : ℕ
  pub total : ℕ

pub record DashboardSummary : Type 0 where
  pub score : ℕ
  pub rank : ℕ
  pub labs_completed : ℕ
  pub total_labs : ℕ
  pub completion_pct : ℕ
  pub by_difficulty : GoMap DifficultyProgress

pub record DashboardLab : Type 0 where
  pub lab_id : String
  pub title : String
  pub difficulty : String
  pub status : String
  pub session_id : String
  pub completed_at : Option ℕ

pub record LabStatus : Type 0 where
  pub lab_id : String
  pub status : String
  pub session_id : String

-- the maps that the loops over the rows fill
unfoldable pub completed_at_of : List Completion → GoMap ℕ → GoMap ℕ
completed_at_of [] m = m
completed_at_of (c ∷ l) m = completed_at_of l (insert c.lab_id c.completed_at m)

unfoldable pub started_of : List InProgressLab → GoMap String → GoMap String
started_of [] m = m
started_of (p ∷ l) m = started_of l (insert p.lab_id p.session_id m)

abbrev pub row_for : String → Lab → Option ℕ → Option String → DashboardLab
row_for id lab (some t) o = record {
  lab_id = id;
  title = lab.title;
  difficulty = lab.difficulty;
  status = "completed";
  session_id = "";
  completed_at = some t;
}
row_for id lab none (some s) = record {
  lab_id = id;
  title = lab.title;
  difficulty = lab.difficulty;
  status = "in_progress";
  session_id = s;
  completed_at = none;
}
row_for id lab none none = record {
  lab_id = id;
  title = lab.title;
  difficulty = lab.difficulty;
  status = "not_started";
  session_id = "";
  completed_at = none;
}

abbrev pub no_lab : Lab
no_lab = record { title = ""; difficulty = "" }

abbrev pub or_zero : {A : Type 0} → A → Option A → A
or_zero z none = z
or_zero z (some x) = x

unfoldable pub dashboard_rows : GoMap Lab → GoMap ℕ → GoMap String → List String → List DashboardLab
dashboard_rows labs completed started ids =
    map
      (λ id. row_for id (or_zero no_lab (lookup id labs)) (lookup id completed) (lookup id started))
      ids

abbrev pub no_progress : DifficultyProgress
no_progress = record { done = 0; total = 0 }

abbrev pub counted : DashboardLab → DifficultyProgress → DifficultyProgress
counted r d = record {
  total = suc d.total;
  done = if str_eq r.status "completed" then suc d.done else d.done;
}

unfoldable pub by_difficulty_of :
    List DashboardLab → GoMap DifficultyProgress → GoMap DifficultyProgress
by_difficulty_of [] m = m
by_difficulty_of (r ∷ l) m =
    by_difficulty_of l
      (insert r.difficulty (counted r (or_zero no_progress (lookup r.difficulty m))) m)

abbrev pub no_difficulties : GoMap DifficultyProgress
no_difficulties =
    ("beginner", no_progress) ∷ ("intermediate", no_progress) ∷ ("advanced", no_progress) ∷ []

unfoldable pub percent : ℕ → ℕ → ℕ
percent done zero = 0
percent done (suc n) = let pct = done * 100 / suc n in if ltb 100 pct then 100 else pct

-- Go compares strings by their bytes in UTF-8, which is by their code points.
abbrev pub text_before : List ℕ → List ℕ → Bool
text_before [] [] = false
text_before [] (d ∷ t) = true
text_before (c ∷ s) [] = false
text_before (c ∷ s) (d ∷ t) = let rest = text_before s t in if c == d then rest else ltb c d

unfoldable pub place_id : String → List String → List String
place_id x [] = x ∷ []
place_id x (y ∷ l) =
    let rest = place_id x l in if text_before (codes y) (codes x) then y ∷ rest else x ∷ y ∷ l

-- sort.Strings
unfoldable pub sort_ids : List String → List String
unfolding place_id
sort_ids [] = []
sort_ids (x ∷ l) = place_id x (sort_ids l)

-- the keys of the map, sorted
abbrev pub ids_of : GoMap Lab → List String
ids_of labs = sort_ids (map (λ p. p.0) labs)

unfoldable pub build_dashboard :
    GoMap Lab → List Completion → List InProgressLab → DashboardSummary × List DashboardLab
unfolding completed_at_of started_of dashboard_rows by_difficulty_of percent sort_ids
build_dashboard labs completions in_progress =
    let ids = ids_of labs in
    let rows =
      dashboard_rows labs (completed_at_of completions []) (started_of in_progress []) ids in
    (
      record {
        score = 0;
        rank = 0;
        labs_completed = length completions;
        total_labs = length ids;
        completion_pct = percent (length completions) (length ids);
        by_difficulty = by_difficulty_of rows no_difficulties;
      },
      rows,
    )

-- What the handlers ask: none for an error. `active` is FindActiveByUser, with "" for no session.
pub data Found : Type 0 where
  not_found broken : Found
  session : String → ℕ → Found

pub record Answers : Type 0 where
  pub completions : Option (List Completion)
  pub in_progress : Option (List InProgressLab)
  pub leaderboard_rows : Option (List Row)
  pub hidden : Option Bool
  pub active : Option String
  pub get : String → Found

pub record Dashboard : Type 0 where
  pub summary : DashboardSummary
  pub labs : List DashboardLab
  pub recent_completions : List Completion
  pub leaderboard_hidden : Bool

pub data Shown : Type 0 where
  fails : ℕ → Shown
  dashboard : Dashboard → Shown
  items : List LabStatus → Shown

unfoldable pub rank_in : String → List Entry → ℕ
rank_in uid l = elim (find (λ e. str_eq e.user_id uid) l) [ none ↦ 0 | some e ↦ e.rank ]

-- `ranked` stands for rankEntries.
unfoldable pub user_rank : (List Row → List Entry) → String → Option (List Row) → ℕ
unfolding rank_in
user_rank ranked uid none = 0
user_rank ranked uid (some rows) = rank_in uid (ranked rows)

unfoldable pub score_of : (String → ℕ) → List Completion → ℕ
score_of weight [] = 0
score_of weight (c ∷ l) = weight c.lab_id + score_of weight l

abbrev pub is_live : Found → ℕ → Bool
is_live (session status expires_at) now =
    ltb now expires_at && (str_eq status "provisioning" || str_eq status "ready")
is_live not_found now = false
is_live broken now = false

-- the rows of the session that is still active, if the provider knows it; none for an error
abbrev pub of_session : String → Found → ℕ → List InProgressLab → Option (List InProgressLab)
of_session sid broken now l = none
of_session sid not_found now l = some []
of_session sid (session status expires_at) now l =
    some (
      if is_live (session status expires_at) now then keep (λ p. str_eq p.session_id sid) l else [])

abbrev pub of_active :
    Answers → ℕ → List InProgressLab → Option String → Option (List InProgressLab)
of_active a now l none = none
of_active a now l (some sid) = if str_eq sid "" then some [] else of_session sid (a.get sid) now l

-- `provider` is whether there is a session provider.
unfoldable pub still_active : Bool → Answers → ℕ → List InProgressLab → Option (List InProgressLab)
still_active false a now l = some l
still_active true a now [] = some []
still_active true a now (p ∷ l) = of_active a now (p ∷ l) a.active

unfoldable pub completed_session_of : List Completion → GoMap String → GoMap String
completed_session_of [] m = m
completed_session_of (c ∷ l) m = completed_session_of l (insert c.lab_id c.session_id m)

abbrev pub is_some : {A : Type 0} → Option A → Bool
is_some none = false
is_some (some x) = true

-- neither passed and recorded
abbrev pub is_open : GoMap String → InProgressLab → Bool
is_open completed p = not p.all_passed || not (is_some (lookup p.lab_id completed))

abbrev pub overridden : DashboardLab → Option String → String → LabStatus
overridden r none done = record { lab_id = r.lab_id; status = r.status; session_id = r.session_id }
overridden r (some sid) done =
    if str_eq done sid
    then record { lab_id = r.lab_id; status = r.status; session_id = r.session_id }
    else record { lab_id = r.lab_id; status = "in_progress"; session_id = sid }

module _ (labs : GoMap Lab) where
  unfoldable pub get_my_dashboard :
      (List Row → List Entry) → (String → ℕ) → String → Option Answers → Shown
  unfolding build_dashboard user_rank score_of
  get_my_dashboard ranked weight uid none = fails 503
  get_my_dashboard ranked weight uid (some a) = elim a.completions [
    | none ↦ fails 500
    | some completions ↦
        let (summary, rows) = build_dashboard labs completions (or_zero [] a.in_progress) in
        elim a.hidden [
          | none ↦ fails 500
          | some hidden ↦ dashboard (record {
            summary = record summary {
              score = score_of weight completions;
              rank = user_rank ranked uid a.leaderboard_rows;
            };
            labs = rows;
            recent_completions = take 10 completions;
            leaderboard_hidden = hidden;
          })
        ]
  ]

  unfoldable pub lab_statuses : List Completion → List InProgressLab → List LabStatus
  unfolding completed_session_of build_dashboard started_of
  lab_statuses completions in_progress =
      let completed = completed_session_of completions [] in
      let open_ones = keep (is_open completed) in_progress in
      let active = started_of open_ones [] in
      map (λ r. overridden r (lookup r.lab_id active) (or_zero "" (lookup r.lab_id completed)))
        (build_dashboard labs completions open_ones).1

  unfoldable pub get_my_lab_statuses : Bool → ℕ → Option Answers → Shown
  unfolding still_active lab_statuses
  get_my_lab_statuses provider now none = fails 503
  get_my_lab_statuses provider now (some a) = elim a.completions [
    | none ↦ fails 500
    | some completions ↦ elim a.in_progress [
      | none ↦ fails 500
      | some in_progress ↦ elim (still_active provider a now in_progress) [
        | none ↦ fails 500
        | some l ↦ items (lab_statuses completions l)
      ]
    ]
  ]
