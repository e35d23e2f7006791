-- ===== src/Leaderboard.antt =====
-- apps/api/internal/api/handlers/leaderboard.go: the ranking of the users by the labs that they have
-- completed. Instants are numbers, and 0 is Go's zero time.
pub mod Ranking
pub mod Points
pub mod Mine
pub mod Samples
use cledyu.Base.{
  ℕ, zero, suc, ◌+◌, ◌-◌, String, Bool, true, false, List, [], ◌∷◌, map, Option, none, some, GoMap,
  lookup, ltb, str_eq, ◌==◌, if◌then◌else◌, take, find,
}

pub record Row : Type 0 where
  pub row_user : String
  pub row_name : String
  pub lab_id : String
  pub completed_at : ℕ

pub record Entry : Type 0 where
  pub user_id : String
  pub name : String
  pub score : ℕ
  pub labs_completed : ℕ
  pub last_completed : ℕ
  pub rank : ℕ

abbrev pub difficulty_weight : GoMap ℕ
difficulty_weight = ("beginner", 10) ∷ ("intermediate", 25) ∷ ("advanced", 50) ∷ []

abbrev pub weight_of : Option ℕ → ℕ
weight_of (some w) = w
weight_of none = 10

-- by the difficulty of the lab, if the lab is known
unfoldable pub weight_for_lab : GoMap String → String → ℕ
weight_for_lab labs lab = elim (lookup lab labs) [
  | none ↦ 0
  | some difficulty ↦ weight_of (lookup difficulty difficulty_weight)
]

abbrev pub fresh_entry : Row → Entry
fresh_entry r = record {
  user_id = r.row_user;
  name = r.row_name;
  score = 0;
  labs_completed = 0;
  last_completed = 0;
  rank = 0;
}

abbrev pub bump : ℕ → Row → Entry → Entry
bump w r e = record e {
  score = e.score + w;
  labs_completed = suc e.labs_completed;
  last_completed = if ltb e.last_completed r.completed_at then r.completed_at else e.last_completed;
}

-- byUser, a map by the user's ID: one round of the loop over the rows
unfoldable pub add_row : (String → ℕ) → Row → List Entry → List Entry
add_row weight r [] = bump (weight r.lab_id) r (fresh_entry r) ∷ []
add_row weight r (e ∷ l) =
    let rest = add_row weight r l in
    if str_eq e.user_id r.row_user then bump (weight r.lab_id) r e ∷ l else e ∷ rest

unfoldable pub aggregate : (String → ℕ) → List Row → List Entry → List Entry
unfolding add_row
aggregate weight [] l = l
aggregate weight (r ∷ rows) l = aggregate weight rows (add_row weight r l)

-- the comparison of the sort
unfoldable pub before : Entry → Entry → Bool
before e f =
    if e.score == f.score then ltb e.last_completed f.last_completed else ltb f.score e.score

unfoldable pub place : Entry → List Entry → List Entry
unfolding before
place e [] = e ∷ []
place e (f ∷ l) = let rest = place e l in if before f e then f ∷ rest else e ∷ f ∷ l

-- sort.Slice
unfoldable pub sort : List Entry → List Entry
unfolding place
sort [] = []
sort (e ∷ l) = place e (sort l)

unfoldable pub number : ℕ → List Entry → List Entry
number i [] = []
number i (e ∷ l) = record e { rank = i } ∷ number (suc i) l

-- `order` is the order in which Go walks over the map.
unfoldable pub rank_entries : (List Entry → List Entry) → (String → ℕ) → List Row → List Entry
unfolding aggregate sort number
rank_entries order weight rows = number 1 (sort (order (aggregate weight rows [])))

pub record Item : Type 0 where
  pub item_rank : ℕ
  pub item_name : String
  pub item_score : ℕ
  pub item_labs : ℕ

abbrev pub to_item : Entry → Item
to_item e = record {
  item_rank = e.rank;
  item_name = e.name;
  item_score = e.score;
  item_labs = e.labs_completed;
}

unfoldable pub to_items : List Entry → ℕ → List Item
to_items l n = map to_item (take n l)

pub record MyRank : Type 0 where
  pub my_rank : ℕ
  pub my_score : ℕ
  pub my_labs : ℕ
  pub leaderboard_hidden : Bool

pub record Board : Type 0 where
  pub hall_of_fame : List Item
  pub recent_risers : List Item
  pub me : MyRank

-- The database: the user's preference, the rows of those who are shown, since an instant if one is
-- given, and the lab IDs that a user has completed. None stands for an error.
pub record Db : Type 0 where
  pub hidden_of : String → Option Bool
  pub rows_since : Option ℕ → Option (List Row)
  pub completions : String → Option (List String)

abbrev pub recent_window : ℕ
recent_window = 604800

unfoldable pub sum_weights : (String → ℕ) → List String → ℕ × ℕ
sum_weights weight [] = (0, 0)
sum_weights weight (lab ∷ l) =
    let (score, count) = sum_weights weight l in (weight lab + score, suc count)

unfoldable pub user_score : Db → (String → ℕ) → String → ℕ × ℕ
unfolding sum_weights
user_score db weight uid =
    if str_eq uid ""
    then (0, 0)
    else elim (db.completions uid) [ none ↦ (0, 0) | some l ↦ sum_weights weight l ]

unfoldable pub my_rank_of : Db → (String → ℕ) → String → Bool → List Entry → MyRank
unfolding user_score
my_rank_of db weight uid hidden ranked = elim (find (λ e. str_eq e.user_id uid) ranked) [
  | some e ↦ record {
    my_rank = e.rank;
    my_score = e.score;
    my_labs = e.labs_completed;
    leaderboard_hidden = hidden;
  }
  | none ↦
      let (score, count) = user_score db weight uid in
      record { my_rank = 0; my_score = score; my_labs = count; leaderboard_hidden = hidden }
]

unfoldable pub board_of :
    Db → (List Entry → List Entry) → (String → ℕ) → String → Bool → List Row → List Row → Board
unfolding rank_entries to_items my_rank_of
board_of db order weight uid hidden all_rows recent_rows =
    let ranked = rank_entries order weight all_rows in
    record {
      hall_of_fame = to_items ranked 10;
      recent_risers = to_items (rank_entries order weight recent_rows) 10;
      me = my_rank_of db weight uid hidden ranked;
    }

-- The answer, or the status of the error. The labs are given by their difficulties.
pub data Shown : Type 0 where
  board : Board → Shown
  fails : ℕ → Shown

unfoldable pub get_leaderboard :
    Option Db → (List Entry → List Entry) → GoMap String → String → ℕ → Shown
unfolding board_of weight_for_lab
get_leaderboard none order labs uid now = fails 503
get_leaderboard (some db) order labs uid now = elim (db.hidden_of uid) [
  | none ↦ fails 500
  | some hidden ↦ elim (db.rows_since none) [
    | none ↦ fails 500
    | some rows ↦ elim (db.rows_since (some (now - recent_window))) [
      | none ↦ fails 500
      | some recent ↦ board (board_of db order (weight_for_lab labs) uid hidden rows recent)
    ]
  ]
]
