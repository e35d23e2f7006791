-- ===== src/Ec2/Cloud.antt =====
-- What apps/api/internal/ec2/provisioner.go uses of the EC2 API, of Redis and of the key minter: a
-- record of calls over the state of the cloud. A read is what the API answers in that state; every
-- error is the text of its message.
use cledyu.Base.{ℕ, String, Bool, List, Option}
use cledyu.Session.{BootInit}

pub data Reply {ℓ} (A : Type ℓ) : Type ℓ where
  got : A → Reply A
  failed : String → Reply A

pub record Tag : Type 0 where
  pub key : Option String
  pub value : Option String

pub record Instance : Type 0 where
  pub instance_id : Option String
  pub state : Option String
  pub tags : List Tag

pub data Filter : Type 0 where
  tag_is : String → String → Filter
  state_in : List String → Filter

-- what the user data is rendered from
pub record UserData : Type 0 where
  pub session_id : String
  pub init : BootInit
  pub auth_key : String

pub record RunInput : Type 0 where
  pub launch_template : String
  pub version : String
  pub min_count : ℕ
  pub max_count : ℕ
  pub user_data : UserData
  pub tags : List (String × String)
  -- none for that of the template
  pub instance_type : Option String

pub record Services (W : Type 0) : Type 0 where
  pub run_instances : RunInput → W → Reply (List Instance) × W
  -- the pages that the paginator yields, each a list of reservations
  pub pages : List Filter → W → List (Reply (List (List Instance)))
  pub terminate_instances : String → W → Option String × W
  -- instance, key and value
  pub create_tags : String → String → String → W → Option String × W
  -- Redis' SETNX with an expiry, and DEL
  pub set_nx : String → W → Reply Bool × W
  pub del : String → W → W
  -- the tailnet API
  pub mint : W → Reply String × W
  pub now : W → ℕ
  -- RFC 3339
  pub format_time : ℕ → String
  pub parse_time : String → Option ℕ
