-- ===== src/Dashboard/Samples.antt =====
-- Instances of the theorems on the dashboard, for a catalogue of two labs.
use cledyu.Base.{◌≤◌, str_eq, String, ◌≡◌, true, false, List, [], ◌∷◌, map, some, GoMap, count, All}
use cledyu.Dashboard.{
  Lab, Completion, InProgressLab, session, Answers, DashboardSummary, DashboardLab, build_dashboard,
  get_my_lab_statuses,
}
use cledyu.Dashboard.Order.{Ascending}
use cledyu.Dashboard.Rows.{Says, of_difficulty, done_of, progress_in, build_dashboard-Says}
use cledyu.Dashboard.Statuses.{Sent, get_my_lab_statuses-Live}

abbrev labs : GoMap Lab
labs =
    ("b", record { title = "B"; difficulty = "advanced" })
    ∷ ("a", record { title = "A"; difficulty = "beginner" })
    ∷ []

abbrev completions : List Completion
completions = record { lab_id = "a"; session_id = "s1"; completed_at = 3 } ∷ []

-- The lab a is done again in s2, which runs; s3 of the lab b has been reaped.
abbrev in_progress : List InProgressLab
in_progress =
    record { lab_id = "a"; session_id = "s2"; all_passed = false }
    ∷ record { lab_id = "b"; session_id = "s3"; all_passed = false }
    ∷ []

abbrev answers : Answers
answers = record {
  completions = some completions;
  in_progress = some in_progress;
  leaderboard_rows = some [];
  hidden = some false;
  active = some "s2";
  get = λ sid. session "ready" 100;
}

build_dashboard-Says_example :
    let b : DashboardSummary × List DashboardLab = build_dashboard labs completions in_progress in
    Ascending (map (λ r. r.lab_id) b.1)
    × ((id : String)
        → count (str_eq id) (map (λ r. r.lab_id) b.1) ≡ count (str_eq id) (map (λ p. p.0) labs))
    × All (Says completions in_progress) b.1
    × ((d : String)
        → ((progress_in d b.0.by_difficulty).total ≡ count (of_difficulty d) b.1)
          × ((progress_in d b.0.by_difficulty).done ≡ count (done_of d) b.1))
    × (b.0.completion_pct ≤ 100)
build_dashboard-Says_example = build_dashboard-Says labs completions in_progress

get_my_lab_statuses-Live_example : Sent answers 50 (get_my_lab_statuses labs true 50 (some answers))
get_my_lab_statuses-Live_example = get_my_lab_statuses-Live labs 50 answers
