-- ===== src/Session.antt =====
-- apps/api/internal/session/session.go: the provider-neutral contract of a lab session.
-- A provider is a value over its own state `W`; an operation returns its answer and the new state.
-- Instants are numbers, and `not_found` is every error for which `errors.Is(err, ErrNotFound)`.
pub mod Contract
pub mod Dispatcher
pub mod Samples
use cledyu.Base.{ℕ, String, Bool, List, Option}

pub data Err : Type 0 where
  not_found : Err
  other : String → Err

pub data Result {ℓ} (A : Type ℓ) : Type ℓ where
  ok : A → Result A
  err : Err → Result A

pub data Status : Type 0 where
  provisioning ready failed : Status

pub data ProviderKind : Type 0 where
  kubevirt ec2 : ProviderKind

pub record Session : Type 0 where
  pub id : String
  pub lab_id : String
  pub user_id : String
  pub status : Status
  pub provisioning_stage : String
  pub started_at : ℕ
  pub expires_at : ℕ
  pub provider : ProviderKind
  pub instance_id : String
  pub region : String
  pub tailnet_enabled : Bool

pub record BootInit : Type 0 where
  pub packages : List String
  pub runcmd : List String

pub record Provider (W : Type 0) : Type 0 where
  -- session, lab, user
  pub create : String → String → String → BootInit → W → Result Session × W
  pub get : String → W → Result Session × W
  pub delete : String → W → Option Err × W
  -- the empty text stands for no active session
  pub find_active_by_user : String → W → Result String × W
  pub count_active_sessions : W → Result ℕ × W
  pub reap_stuck_sessions : ℕ → W → (List String × Option Err) × W
  pub reap_expired_sessions : W → (List String × Option Err) × W
  pub vmi_address : String → W → Result String × W
  pub capacity : ℕ
