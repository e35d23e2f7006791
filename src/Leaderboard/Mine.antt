-- ===== src/Leaderboard/Mine.antt =====
-- apps/api/internal/api/handlers/leaderboard.go, GetMyProgress and SetMyPreferences: what a user sees of
-- their own work, and their choice not to be ranked, over the users and completions of the database.
-- A server without a database has none. The rank is looked for as the dashboard's userRank does it.
pub mod OptedOut
use cledyu.Base.{
  ℕ, zero, suc, ◌+◌, String, Bool, true, false, List, [], ◌∷◌, Option, none, some, GoMap, lookup,
  insert, length, take,
}
use cledyu.Sql.{Pg}
use cledyu.Sql.Tables.{Tables, Completion}
use cledyu.Sql.Users.{set_leaderboard_hidden, list_completions_by_user, leaderboard_rows}
use cledyu.Leaderboard.{Row, Entry, weight_for_lab, rank_entries}
use cledyu.Dashboard.{user_rank}

pub record MyProgress : Type 0 where
  pub score : ℕ
  pub rank : ℕ
  pub labs_completed : ℕ
  pub by_difficulty : GoMap ℕ
  pub recent_completions : List Completion

pub data Answer (A : Type 0) : Type 0 where
  fails : ℕ → Answer A
  gives : A → Answer A

abbrev pub or_zero : Option ℕ → ℕ
or_zero none = 0
or_zero (some n) = n

abbrev pub count_in : Option String → GoMap ℕ → GoMap ℕ
count_in none m = m
count_in (some difficulty) m = insert difficulty (suc (or_zero (lookup difficulty m))) m

unfoldable pub by_difficulty_from : GoMap String → List Completion → GoMap ℕ → GoMap ℕ
by_difficulty_from labs [] m = m
by_difficulty_from labs (c ∷ l) m = by_difficulty_from labs l (count_in (lookup c.lab_id labs) m)

abbrev pub none_completed : GoMap ℕ
none_completed = ("beginner", 0) ∷ ("intermediate", 0) ∷ ("advanced", 0) ∷ []

unfoldable pub score_from : (String → ℕ) → List Completion → ℕ
score_from weight [] = 0
score_from weight (c ∷ l) = weight c.lab_id + score_from weight l

abbrev Handled : Type 0 → Type 0
Handled A = Answer A × Option (Pg Tables)

-- `order` is the order in which Go walks over a map; the labs are given by their difficulties.
module _ (order : List Entry → List Entry) (labs : GoMap String) (uid : String) where
  abbrev pub progress_with : List Completion → Option (List Row) × Pg Tables → Handled MyProgress
  progress_with completions (rows, pg) = (
    gives (record {
      score = score_from (weight_for_lab labs) completions;
      rank = user_rank (rank_entries order (weight_for_lab labs)) uid rows;
      labs_completed = length completions;
      by_difficulty = by_difficulty_from labs completions none_completed;
      recent_completions = take 10 completions;
    }),
    some pg,
  )

  abbrev pub progress_of : Option (List Completion) × Pg Tables → Handled MyProgress
  progress_of (none, pg) = (fails 500, some pg)
  progress_of (some completions, pg) = progress_with completions (leaderboard_rows none pg)

  unfoldable pub get_my_progress : Option (Pg Tables) → Handled MyProgress
  unfolding by_difficulty_from score_from
  get_my_progress none = (fails 503, none)
  get_my_progress (some pg) = progress_of (list_completions_by_user uid pg)

-- The answer is the preference. No body is one without the field.
abbrev pub preference : Bool → Bool × Pg Tables → Handled Bool
preference hidden (true, pg) = (gives hidden, some pg)
preference hidden (false, pg) = (fails 500, some pg)

unfoldable pub set_my_preferences : String → Option Bool → ℕ → Option (Pg Tables) → Handled Bool
set_my_preferences uid body db_now none = (fails 503, none)
set_my_preferences uid none db_now (some pg) = (fails 400, some pg)
set_my_preferences uid (some hidden) db_now (some pg) =
    preference hidden (set_leaderboard_hidden uid hidden db_now pg)
