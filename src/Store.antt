-- ===== src/Store.antt =====
-- apps/api/internal/api/handlers/progress.go: `stepStore`, the cache of the sessions' progress in front
-- of the database, and the conversions between the two. The database is a parameter over its state
-- `D`. A method is one step, so the two parts of `withSession`, under the lock and behind it, are not
-- interleaved with other calls. Callbacks return the new record, what they captured, and `dirty`.
pub mod View
pub mod Calls
pub mod Restart
pub mod Shapes
pub mod Samples
use cledyu.Base.{
  ℕ, String, Bool, true, false, List, [], ◌∷◌, map, Option, none, some, GoMap, lookup, insert,
  erase, if◌then◌else◌,
}
use cledyu.Progress.{CheckOutcome, StepStatus, StepState, SessionSteps, all_passed}

-- store.StepProgress and store.SessionProgress
pub record StepProgress : Type 0 where
  pub step_id : ℕ
  pub status : StepStatus
  pub attempts : ℕ
  pub checks : List CheckOutcome
  pub hint_level : ℕ

pub record SessionProgress : Type 0 where
  pub lab_id : String
  pub user_id : String
  pub current_step : ℕ
  pub steps : List StepProgress

abbrev pub to_step : StepState → StepProgress
to_step s = record {
  step_id = s.step_id;
  status = s.status;
  attempts = s.attempts;
  checks = map (λ c. record { type = c.type; passed = c.passed; detail = c.detail }) s.checks;
  hint_level = s.hint_level;
}

abbrev pub from_step : StepProgress → StepState
from_step p = record {
  step_id = p.step_id;
  status = p.status;
  attempts = p.attempts;
  checks = map (λ c. record { type = c.type; passed = c.passed; detail = c.detail }) p.checks;
  hint_level = p.hint_level;
}

unfoldable pub to_store_progress : SessionSteps → SessionProgress
to_store_progress ss = record {
  lab_id = ss.lab_id;
  user_id = ss.user_id;
  current_step = ss.current_step;
  steps = map to_step ss.steps;
}

unfoldable pub from_store_progress : SessionProgress → SessionSteps
from_store_progress p = record {
  lab_id = p.lab_id;
  user_id = p.user_id;
  steps = map from_step p.steps;
  current_step = p.current_step;
}

-- `LoadProgress`: an error, or the row if there is one.
pub data Loaded : Type 0 where
  load_failed : Loaded
  loaded : Option SessionProgress → Loaded

-- The methods of `persistence` that the store uses; a Bool answers whether the call succeeded.
pub record Database (D : Type 0) : Type 0 where
  pub save : String → SessionProgress → D → Bool × D
  pub load : String → D → Loaded × D
  pub delete : String → D → Bool × D

abbrev pub StoreState : Type 0 → Type 0
StoreState D = GoMap SessionSteps × D

abbrev is_done : Option Bool → Bool
is_done none = false
is_done (some b) = b

abbrev pub from_loaded : Loaded → Option SessionSteps
from_loaded load_failed = none
from_loaded (loaded none) = none
from_loaded (loaded (some p)) = some (from_store_progress p)

module _ {D : Type 0} where
  abbrev pub keep_loaded : String → Loaded → StoreState D → Option SessionSteps × StoreState D
  keep_loaded id load_failed s = (none, s)
  keep_loaded id (loaded none) s = (none, s)
  keep_loaded id (loaded (some p)) s =
      let ss = from_store_progress p in (some ss, (insert id ss s.0, s.1))

  abbrev pub load_on_miss :
      Option (Database D)
      → String
      → Option SessionSteps
      → StoreState D
      → Option SessionSteps × StoreState D
  load_on_miss db id (some ss) s = (some ss, s)
  load_on_miss none id none s = (none, s)
  load_on_miss (some d) id none s = let (l, w) = d.load id s.1 in keep_loaded id l (s.0, w)

  -- The first part of `withSession`: the record of the session, from the cache or the database.
  unfoldable pub fetch :
      Option (Database D) → String → StoreState D → Option SessionSteps × StoreState D
  fetch db id s = load_on_miss db id (lookup id s.0) s

  abbrev pub save_if : Bool → Option (Database D) → String → SessionSteps → D → D
  save_if false db id ss w = w
  save_if true none id ss w = w
  save_if true (some d) id ss w = (d.save id (to_store_progress ss) w).1

  abbrev pub call_with :
      {A : Type 0}
      → Option (Database D)
      → String
      → (SessionSteps → (SessionSteps × A) × Bool)
      → Option SessionSteps
      → StoreState D
      → Option A × StoreState D
  call_with db id fn none s = (none, s)
  call_with db id fn (some ss) s =
      let ((ss', a), dirty) = fn ss in (some a, (insert id ss' s.0, save_if dirty db id ss' s.1))

  -- `withSession`: none for a session that is nowhere.
  unfoldable pub with_session :
      {A : Type 0}
      → Option (Database D)
      → String
      → (SessionSteps → (SessionSteps × A) × Bool)
      → StoreState D
      → Option A × StoreState D
  unfolding fetch
  with_session db id fn s = let (o, s1) = fetch db id s in call_with db id fn o s1

  -- `put`: it answers whether the session was registered.
  unfoldable pub put :
      Option (Database D) → String → SessionSteps → StoreState D → Bool × StoreState D
  put none id ss s = (true, (insert id ss s.0, s.1))
  put (some d) id ss s =
      let (ok, w) = d.save id (to_store_progress ss) s.1 in
      if ok then (true, (insert id ss s.0, w)) else (false, (s.0, w))

  -- `completed`
  unfoldable pub completed : Option (Database D) → String → StoreState D → Bool × StoreState D
  unfolding with_session
  completed db id s =
      let (o, s1) = with_session db id (λ ss. ((ss, all_passed ss), false)) s in (is_done o, s1)

  abbrev pub load_taken : Database D → String → Option SessionSteps → D → Option SessionSteps × D
  load_taken d id (some ss) w = (some ss, w)
  load_taken d id none w = let (l, w1) = d.load id w in (from_loaded l, w1)

  -- `take`: the last record, which goes out of the cache and the database.
  unfoldable pub take :
      Option (Database D) → String → StoreState D → Option SessionSteps × StoreState D
  take none id s = (lookup id s.0, (erase id s.0, s.1))
  take (some d) id s =
      let (o, w) = load_taken d id (lookup id s.0) s.1 in (o, (erase id s.0, (d.delete id w).1))
