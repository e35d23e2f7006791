-- ===== src/Lifecycle/Samples.antt =====
-- One user's session with providers in memory: tests of the handlers, and instances of the theorems.
use cledyu.Base.{
  ℕ, lookup, String, ◌≡◌, ◌≢◌, ◌∙◌, refl, sym, ◌≤◌, false, true, List, [], ◌∷◌, ◌++◌, none, some,
  arith, length, str_eq, str_eq_iff,
}
use cledyu.Session.{other, Session, Provider}
use cledyu.Session.Samples.{memory, memory_view, memory-Implements, new_session, no_init}
use cledyu.Lifecycle.Backed.{Backed, create_session-Backed}
use cledyu.Store.Samples.{Table, memory_db, table_of, memory_db-Rows, memory_db-Reliable, two_steps}
use cledyu.Lifecycle.{ApiState, reap_expired_sessions}
use cledyu.Engine.{pos}
use cledyu.Lifecycle.Validate.{Grader, ValidateRequest, validate_step}
use cledyu.Lifecycle.Asked.{Asked, validate_step-Asked}
use cledyu.Lifecycle.Content.{ContentCheck, ApiRequest, LabContent}
use cledyu.Lifecycle.Create.{Api, CreateRequest, create_session}
use cledyu.Lifecycle.Capacity.{create_session-le-capacity}
use cledyu.Lifecycle.Access.{two, reaped_lost}

abbrev State : Type 0
State = ApiState (List Session) Table

abbrev empty : State
empty = ([], (([], []), []))

abbrev lab : LabContent
lab = record {
  difficulty = "beginner";
  steps = record { id = 1; checks = [] } ∷ record { id = 2; checks = [] } ∷ [];
  init = no_init;
}

abbrev api : Api (List Session) Table
api = record {
  sessions = some memory;
  db = some memory_db;
  get_subscription = none;
  labs = ("lab-k8s-basics", lab) ∷ [];
  release = false;
}

abbrev request_of : String → String → CreateRequest
request_of uid id = record {
  lab_id = some "lab-k8s-basics";
  user_id = uid;
  acquired = true;
  new_id = id;
  now = 0;
}

create_session-le-capacity_example :
    length (create_session api (request_of "u1" "a1") empty).1.0 ≤ 2
create_session-le-capacity_example =
    create_session-le-capacity memory memory_view memory-Implements api (request_of "u1" "a1") empty
      refl (omega arith) (omega arith)

abbrev one : State
one = (new_session "a1" "lab-k8s-basics" "u1" ∷ [], ((("a1", two_steps) ∷ [], []), []))

apart : (s t : String) → str_eq s t ≡ false → s ≢ t
apart s t h e = cc (sym h ∙ (str_eq_iff s t).1 e)

u2-u1 : str_eq "u2" "u1" ≡ false
unfolding str_eq
u2-u1 = refl

u2-empty : str_eq "u2" "" ≡ false
unfolding str_eq
u2-empty = refl

u1-empty : str_eq "u1" "" ≡ false
unfolding str_eq
u1-empty = refl

abbrev reaping : Provider (List Session)
reaping = record memory { reap_expired_sessions = λ l. (("a1" ∷ [], none), []) }

abbrev failing : Provider (List Session)
failing = record memory { reap_expired_sessions = λ l. (([], some (other "throttled")), l) }

abbrev both : ApiState (List Session × List Session) Table
both = ((one.0, []), one.1)

reaped_lost_example :
    (((two reaping failing 1).reap_expired_sessions both.0).0.0 ≡ "a1" ∷ [] ++ [])
    × ((reap_expired_sessions (some memory_db) (some (two reaping failing 1)) both).1 ≡ both.1)
reaped_lost_example = reaped_lost reaping failing 1 (some memory_db) both (other "throttled") refl

create_session-Backed_example :
    Backed table_of api.labs
      (request_of "u1" "a1")
      (create_session api (request_of "u1" "a1") empty)
create_session-Backed_example =
    create_session-Backed memory_db table_of memory_db-Rows memory_db-Reliable api
      (request_of "u1" "a1") empty refl

abbrev pods : ContentCheck
pods = record {
  type = "command";
  command = "kubectl get pods";
  path = "";
  url = "";
  name = "";
  expect = "nginx";
  expect_code = pos 0;
  timeout = pos 0;
}

abbrev graded : LabContent
graded = record {
  difficulty = "beginner";
  steps = record { id = 1; checks = pods ∷ [] } ∷ record { id = 2; checks = pods ∷ [] } ∷ [];
  init = no_init;
}

abbrev grader : Grader (List Session) Table (List ApiRequest)
grader = record {
  sessions = some memory;
  db = some memory_db;
  record_completion = λ uid l id w. w;
  labs = ("lab-k8s-basics", graded) ∷ [];
  release = true;
  validator = some (λ r k. (true, r ∷ k));
}

abbrev validates : ℕ → ValidateRequest
validates step = record { session_id = "a1"; user_id = "u1"; step_id = some step; trace_id = "t1" }

cached : lookup "a1" (one.1.0).0 ≡ some two_steps
unfolding lookup str_eq
cached = refl

validate_step-Asked_example :
    Asked grader
      (λ r. true)
      (validates 1)
      1
      two_steps
      []
      (validate_step grader (validates 1) (one, [])).1.1
validate_step-Asked_example =
    validate_step-Asked grader (λ r. true) (validates 1) 1 two_steps refl (one, []) refl cached
