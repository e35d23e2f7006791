-- ===== src/Sql/Progress.antt =====
-- store.go, session progress: SaveProgress, LoadProgress and DeleteProgress. `db_now` is the server's
-- clock; encoding/json is a parameter. The two queries of LoadProgress are made one after the other.
pub mod Steps
pub mod RoundTrip
use cledyu.Base.{
  ℕ, String, Bool, true, false, not, List, [], ◌∷◌, Option, none, some, GoMap, lookup, insert,
  erase, str_eq, ltb, ◌==◌, find, keep, if◌then◌else◌,
}
use cledyu.Progress.{CheckOutcome}
use cledyu.Sql.{Result, ok, err, Pg, Tx, ◌>>=◌, ◌>>◌, give, fail, stmt, in_tx, exec, query}
use cledyu.Sql.Tables.{Tables, Header, StepRow, upsert}

pub record StepProgress : Type 0 where
  pub step_id : ℕ
  pub status : String
  pub attempts : ℕ
  pub hint_level : ℕ
  pub checks : List CheckOutcome

pub record SessionProgress : Type 0 where
  pub lab_id : String
  pub user_id : String
  pub current_step : ℕ
  pub steps : List StepProgress

pub record Json : Type 0 where
  pub marshal : List CheckOutcome → Option String
  pub unmarshal : String → Option (List CheckOutcome)

abbrev pub has_header : String → Header → Bool
has_header id h = str_eq h.session_id id

abbrev pub header_of : String → Tables → Option Header
header_of id t = find (has_header id) t.session_progress

abbrev pub or_empty : Option (List StepRow) → List StepRow
or_empty none = []
or_empty (some l) = l

abbrev pub steps_of : String → Tables → List StepRow
steps_of id t = or_empty (lookup id t.session_steps)

abbrev pub new_header : String → SessionProgress → ℕ → Header
new_header id p db_now = record {
  session_id = id;
  lab_id = p.lab_id;
  user_id = p.user_id;
  current_step = p.current_step;
  updated_at = db_now;
}

-- A header that is there keeps its lab and its user.
abbrev pub touched : SessionProgress → ℕ → Header → Header
touched p db_now h = record h { current_step = p.current_step; updated_at = db_now }

abbrev pub put_header : String → SessionProgress → ℕ → Tables → Tables
put_header id p db_now t = record t {
  session_progress =
      upsert (has_header id) (new_header id p db_now) (touched p db_now) t.session_progress;
}

-- The upsert of a step sets every column but the key.
unfoldable pub put_step : StepRow → List StepRow → List StepRow
put_step r [] = r ∷ []
put_step r (x ∷ l) =
    let rest = put_step r l in
    if r.step_id == x.step_id
    then r ∷ l
    else if ltb r.step_id x.step_id
    then r ∷ x ∷ l
    else x ∷ rest

abbrev pub put_row : String → StepRow → Tables → Tables
put_row id r t = record t { session_steps = insert id (put_step r (steps_of id t)) t.session_steps }

abbrev pub DbErr : Type 0
DbErr = Unit {0}

abbrev pub row_with : StepProgress → Option String → StepRow
row_with s c = record {
  step_id = s.step_id;
  status = s.status;
  attempts = s.attempts;
  hint_level = s.hint_level;
  checks = c;
}

module _ (j : Json) where
  abbrev pub column : List CheckOutcome → Option (Option String)
  column [] = some none
  column (c ∷ l) = elim (j.marshal (c ∷ l)) [ none ↦ none | some b ↦ some (some b) ]

  abbrev pub with_column : StepProgress → Option (Option String) → Option StepRow
  with_column s none = none
  with_column s (some c) = some (row_with s c)

  abbrev pub to_row : StepProgress → Option StepRow
  to_row s = with_column s (column s.checks)

  abbrev pub save_step :
      String → Option StepRow → Tx Tables DbErr (Unit {0}) → Tx Tables DbErr (Unit {0})
  save_step id none rest = fail tt
  save_step id (some r) rest = do stmt tt (λ t. (tt, put_row id r t)); rest

  unfoldable pub save_steps : String → List StepProgress → Tx Tables DbErr (Unit {0})
  save_steps id [] = give tt
  save_steps id (s ∷ l) = save_step id (to_row s) (save_steps id l)

  unfoldable pub save_progress :
      String → SessionProgress → ℕ → Pg Tables → Result DbErr (Unit {0}) × Pg Tables
  unfolding save_steps
  save_progress id p db_now =
      in_tx tt (do stmt tt (λ t. (tt, put_header id p db_now t)); save_steps id p.steps)

  abbrev pub from_column : Option String → Option (List CheckOutcome)
  from_column none = some []
  from_column (some b) = if str_eq b "" then some [] else j.unmarshal b

  abbrev pub with_checks : StepRow → Option (List CheckOutcome) → Option StepProgress
  with_checks r none = none
  with_checks r (some l) = some (record {
    step_id = r.step_id;
    status = r.status;
    attempts = r.attempts;
    hint_level = r.hint_level;
    checks = l;
  })

  abbrev pub from_row : StepRow → Option StepProgress
  from_row r = with_checks r (from_column r.checks)

  abbrev pub scanned : Option StepProgress → Option (List StepProgress) → Option (List StepProgress)
  scanned none l = none
  scanned (some s) none = none
  scanned (some s) (some l) = some (s ∷ l)

  unfoldable pub from_rows : List StepRow → Option (List StepProgress)
  from_rows [] = some []
  from_rows (r ∷ l) = scanned (from_row r) (from_rows l)

  abbrev pub with_steps :
      Header → Option (List StepProgress) → Result DbErr (Option SessionProgress)
  with_steps h none = err tt
  with_steps h (some l) = ok (
      some (record {
        lab_id = h.lab_id;
        user_id = h.user_id;
        current_step = h.current_step;
        steps = l;
      }))

  abbrev pub read_steps :
      Header → Option (List StepRow) × Pg Tables → Result DbErr (Option SessionProgress) × Pg Tables
  read_steps h (none, pg) = (err tt, pg)
  read_steps h (some l, pg) = (with_steps h (from_rows l), pg)

  abbrev pub read_header :
      String
      → Option (Option Header) × Pg Tables
      → Result DbErr (Option SessionProgress) × Pg Tables
  read_header id (none, pg) = (err tt, pg)
  read_header id (some none, pg) = (ok none, pg)
  read_header id (some (some h), pg) = read_steps h (query (steps_of id) pg)

  unfoldable pub load_progress :
      String → Pg Tables → Result DbErr (Option SessionProgress) × Pg Tables
  unfolding from_rows
  load_progress id pg = read_header id (query (header_of id) pg)

-- The steps go with their header, by the foreign key.
unfoldable pub delete_progress : String → Pg Tables → Bool × Pg Tables
delete_progress id = exec (λ t. some (record t {
  session_progress = keep (λ h. not (has_header id h)) t.session_progress;
  session_steps = erase id t.session_steps;
}))
