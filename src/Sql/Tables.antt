-- ===== src/Sql/Tables.antt =====
-- apps/api/internal/store/migrations: the tables, and store.go's types of their rows.
pub mod Rows
use cledyu.Base.{
  ℕ, String, Bool, List, [], ◌∷◌, Option, none, some, GoMap, str_eq, ltb, ◌==◌, if◌then◌else◌,
}

pub record Subscription : Type 0 where
  pub subscriber : String
  pub plan_id : String
  pub status : String
  pub current_period_end : Option ℕ
  pub updated_at : ℕ

pub record CheckoutSession : Type 0 where
  pub id : String
  pub user_id : String
  pub plan_id : String
  pub provider : String
  pub status : String
  pub checkout_url : String
  pub created_at : ℕ
  pub expires_at : ℕ

pub record User : Type 0 where
  pub id : String
  pub email : String
  pub name : String
  pub role : String
  pub created_at : ℕ
  pub last_login_at : ℕ
  pub leaderboard_hidden : Bool

pub record Completion : Type 0 where
  pub user_id : String
  pub lab_id : String
  pub session_id : String
  pub completed_at : ℕ

-- A row of session_progress.
pub record Header : Type 0 where
  pub session_id : String
  pub lab_id : String
  pub user_id : String
  pub current_step : ℕ
  pub updated_at : ℕ

-- A row of session_steps: `checks` is JSON or NULL.
pub record StepRow : Type 0 where
  pub step_id : ℕ
  pub status : String
  pub attempts : ℕ
  pub hint_level : ℕ
  pub checks : Option String

-- The steps stand under their session, by the index of the primary key (session_id, step_id).
pub record Tables : Type 0 where
  pub users : List User
  pub session_progress : List Header
  pub session_steps : GoMap (List StepRow)
  pub lab_completions : List Completion
  pub subscriptions : List Subscription
  pub checkout_sessions : List CheckoutSession

-- UPDATE … WHERE
abbrev pub update : {A : Type 0} → (A → Bool) → (A → A) → List A → List A
update p f [] = []
update p f (x ∷ l) = (if p x then f x else x) ∷ update p f l

-- INSERT … ON CONFLICT DO UPDATE, where at most one row has the key
unfoldable pub upsert : {A : Type 0} → (A → Bool) → A → (A → A) → List A → List A
upsert p new merge [] = new ∷ []
upsert p new merge (x ∷ l) =
    let rest = upsert p new merge l in if p x then merge x ∷ l else x ∷ rest
