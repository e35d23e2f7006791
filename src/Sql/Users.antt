-- ===== src/Sql/Users.antt =====
-- store.go, users and lab completions: the mirror of the users, who hides from the leaderboard, which
-- labs a user has completed, and which are in progress. `db_now` is the server's clock.
pub mod Hidden
use cledyu.Base.{
  ℕ, zero, suc, String, Bool, true, false, not, ◌&&◌, List, [], ◌∷◌, ◌++◌, map, Option, none, some,
  GoMap, lookup, str_eq, ltb, leb, find, keep, take, all, if◌then◌else◌,
}
use cledyu.Sql.{Pg, exec, query}
use cledyu.Sql.Tables.{Tables, User, Completion, Header, StepRow, update, upsert}
use cledyu.Leaderboard.{Row}

abbrev pub is_user : String → User → Bool
is_user id u = str_eq u.id id

-- ORDER BY … DESC: what comes first in the table stays first where the keys are equal
module _ {A : Type 0} (key : A → ℕ) where
  unfoldable pub latest_in : A → List A → List A
  latest_in x [] = x ∷ []
  latest_in x (y ∷ l) =
      let rest = latest_in x l in if ltb (key x) (key y) then y ∷ rest else x ∷ y ∷ l

  unfoldable pub latest_first : List A → List A
  unfolding latest_in
  latest_first [] = []
  latest_first (x ∷ l) = latest_in x (latest_first l)

abbrev limit_of : ℕ → ℕ
limit_of zero = 50
limit_of (suc n) = suc n

unfoldable pub list_users : ℕ → Pg Tables → Option (List User) × Pg Tables
unfolding latest_first
list_users limit = query (λ t. take (limit_of limit) (latest_first (λ u. u.last_login_at) t.users))

abbrev pub new_user : String → String → String → String → ℕ → User
new_user id email name role db_now = record {
  id = id;
  email = email;
  name = name;
  role = role;
  created_at = db_now;
  last_login_at = db_now;
  leaderboard_hidden = false;
}

abbrev pub log_in : String → String → String → String → ℕ → Tables → Tables
log_in id email name role db_now t = record t {
  users =
      upsert (is_user id) (new_user id email name role db_now)
        (λ u. record u { email = email; name = name; role = role; last_login_at = db_now }) t.users;
}

unfoldable pub upsert_user : String → String → String → String → ℕ → Pg Tables → Bool × Pg Tables
upsert_user id email name role db_now = exec (λ t. some (log_in id email name role db_now t))

abbrev pub hide : String → Bool → ℕ → Tables → Tables
hide id hidden db_now t = record t {
  users =
      upsert (is_user id)
        (record (new_user id "" "" "student" db_now) { leaderboard_hidden = hidden })
        (λ u. record u { leaderboard_hidden = hidden }) t.users;
}

unfoldable pub set_leaderboard_hidden : String → Bool → ℕ → Pg Tables → Bool × Pg Tables
set_leaderboard_hidden id hidden db_now = exec (λ t. some (hide id hidden db_now t))

abbrev pub is_hidden : Option User → Bool
is_hidden none = false
is_hidden (some u) = u.leaderboard_hidden

unfoldable pub leaderboard_hidden : String → Pg Tables → Option Bool × Pg Tables
leaderboard_hidden id = query (λ t. is_hidden (find (is_user id) t.users))

abbrev pub give_role : String → String → Tables → Tables
give_role id role t = record t {
  users = update (is_user id) (λ u. record u { role = role }) t.users;
}

unfoldable pub set_user_role : String → String → Pg Tables → Bool × Pg Tables
set_user_role id role = exec (λ t. some (give_role id role t))

abbrev pub is_completion : String → String → Completion → Bool
is_completion uid lab c = str_eq c.user_id uid && str_eq c.lab_id lab

abbrev pub add_completion : String → String → String → ℕ → Tables → Tables
add_completion uid lab session db_now t = elim (find (is_completion uid lab) t.lab_completions) [
  | some c ↦ t
  | none ↦ record t {
    lab_completions =
        t.lab_completions
        ++ record { user_id = uid; lab_id = lab; session_id = session; completed_at = db_now } ∷ [];
  }
]

-- ON CONFLICT DO NOTHING
unfoldable pub record_completion : String → String → String → ℕ → Pg Tables → Bool × Pg Tables
record_completion uid lab session db_now =
    exec (λ t. some (add_completion uid lab session db_now t))

unfoldable pub list_completions_by_user : String → Pg Tables → Option (List Completion) × Pg Tables
unfolding latest_first
list_completions_by_user uid =
    query
      (λ t. latest_first (λ c. c.completed_at) (keep (λ c. str_eq c.user_id uid) t.lab_completions))

abbrev pub since : Option ℕ → Completion → Bool
since none c = true
since (some s) c = leb s c.completed_at

abbrev pub row_of : Completion → Option User → List Row → List Row
row_of c none l = l
row_of c (some u) l =
    if u.leaderboard_hidden
    then l
    else record {
      row_user = c.user_id;
      row_name = u.name;
      lab_id = c.lab_id;
      completed_at = c.completed_at;
    }
      ∷ l

-- the JOIN of the completions with the users, who have one row for an ID
unfoldable pub joined : List User → List Completion → List Row
joined users [] = []
joined users (c ∷ l) = row_of c (find (is_user c.user_id) users) (joined users l)

unfoldable pub leaderboard_rows : Option ℕ → Pg Tables → Option (List Row) × Pg Tables
unfolding joined
leaderboard_rows s = query (λ t. joined t.users (keep (since s) t.lab_completions))

pub record InProgressLab : Type 0 where
  pub lab_id : String
  pub session_id : String
  pub all_passed : Bool

abbrev some_and_passed : List StepRow → Bool
some_and_passed [] = false
some_and_passed (s ∷ l) = all (λ r. str_eq r.status "passed") (s ∷ l)

abbrev steps_passed : Option (List StepRow) → Bool
steps_passed none = false
steps_passed (some l) = some_and_passed l

-- DISTINCT ON (lab_id): the first of each lab
unfoldable pub first_of_labs : List Header → List Header
first_of_labs [] = []
first_of_labs (h ∷ l) = h ∷ keep (λ g. not (str_eq g.lab_id h.lab_id)) (first_of_labs l)

abbrev in_progress : Tables → List Header → List InProgressLab
in_progress t l =
    map
      (λ h. record {
        lab_id = h.lab_id;
        session_id = h.session_id;
        all_passed = steps_passed (lookup h.session_id t.session_steps);
      })
      l

-- `by_lab` puts the rows in the order of their labs' IDs, by the server's collation.
unfoldable pub list_in_progress_labs_by_user :
    (List Header → List Header) → String → Pg Tables → Option (List InProgressLab) × Pg Tables
unfolding latest_first first_of_labs lookup
list_in_progress_labs_by_user by_lab uid = query (λ t. in_progress t (
    by_lab (
      first_of_labs
        (latest_first (λ h. h.updated_at) (keep (λ h. str_eq h.user_id uid) t.session_progress)))))
