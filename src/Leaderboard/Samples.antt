-- ===== src/Leaderboard/Samples.antt =====
-- Instances of the theorems on a small board.
use cledyu.Base.{ℕ, true, some, String, ◌≡◌, refl, List, [], ◌∷◌, map, str_eq, lookup}
use cledyu.Leaderboard.{Row, Entry, rank_entries, weight_for_lab}
use cledyu.Sql.{Pg, at, breaks, works, exec}
use cledyu.Sql.Tables.{Tables}
use cledyu.Sql.Users.{hide, set_leaderboard_hidden}
use cledyu.Sql.Users.Hidden.{Op, logs_in, completes, do_ops}
use cledyu.Leaderboard.Mine.{get_my_progress, set_my_preferences, gives}
use cledyu.Leaderboard.Mine.OptedOut.{OffBoard, opted_out-OffBoard}
use cledyu.Leaderboard.Ranking.{IsRanked, rank_entries-IsRanked}

abbrev row : String → String → ℕ → Row
row user lab at = record { row_user = user; row_name = user; lab_id = lab; completed_at = at }

abbrev rows : List Row
rows = row "u1" "a" 5 ∷ row "u2" "b" 7 ∷ row "u1" "b" 9 ∷ []

abbrev weight : String → ℕ
weight = weight_for_lab (("a", "beginner") ∷ ("b", "advanced") ∷ [])

abbrev as_is : List Entry → List Entry
as_is l = l

first_is_u1 : map (λ e. e.score) (rank_entries as_is weight rows) ≡ 60 ∷ 50 ∷ []
unfolding rank_entries weight_for_lab lookup str_eq
first_is_u1 = refl

rank_entries-IsRanked_example : IsRanked 1 (rank_entries as_is weight rows)
rank_entries-IsRanked_example = rank_entries-IsRanked as_is weight rows

abbrev empty : Tables
empty = record {
  users = [];
  session_progress = [];
  session_steps = [];
  lab_completions = [];
  subscriptions = [];
  checkout_sessions = [];
}

abbrev calls : List (Op × ℕ)
calls =
    (logs_in "u1" "u1@x" "U" "student", 7)
    ∷ (completes "u1" "a" "s1", 8)
    ∷ (completes "u1" "b" "s2", 9)
    ∷ []

abbrev hidden_now : Pg Tables
hidden_now = at (hide "u1" true 6 empty) (breaks ∷ works ∷ works ∷ [])

-- The test: the row that hides is in the tables.
opts_out :
    set_my_preferences "u1" (some true) 6 (some (at empty (works ∷ breaks ∷ works ∷ works ∷ [])))
    ≡ (gives true, some hidden_now)
unfolding set_my_preferences set_leaderboard_hidden exec
opts_out = refl

opted_out-OffBoard_example :
    OffBoard
      (weight_for_lab (("a", "beginner") ∷ ("b", "advanced") ∷ []))
      "u1"
      (do_ops calls hidden_now).tables
      (get_my_progress as_is
        (("a", "beginner") ∷ ("b", "advanced") ∷ [])
        "u1"
        (some (do_ops calls hidden_now))).0
opted_out-OffBoard_example =
    opted_out-OffBoard as_is (("a", "beginner") ∷ ("b", "advanced") ∷ []) "u1" 6
      (at empty (works ∷ breaks ∷ works ∷ works ∷ [])) hidden_now calls (λ P m h. h) opts_out
      (tt, (tt, (tt, tt)))
