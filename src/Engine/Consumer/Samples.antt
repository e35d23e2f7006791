-- ===== src/Engine/Consumer/Samples.antt =====
-- A broker in memory, and instances of the theorems on the handler and the consumer.
use cledyu.Base.{
  ◌≡◌, refl, true, false, ◌&&◌, not, List, [], ◌∷◌, Option, none, some, codes, length,
}
use cledyu.Engine.{Text, Check, VmSpec, kubevirt, ValidationRequest, command, file_content, pos}
use cledyu.Engine.Checker.{run_all, run_type, exec_error}
use cledyu.Engine.Checker.{run as run_check}
use cledyu.Engine.Checker.Words.{is_empty, safe_path, path_char}
use cledyu.Engine.Checker.Verdict.{is_absent, steady, dead_passes_absent}
use cledyu.Engine.Checker.Samples.{vm, hosts, lists_pods}
use cledyu.Engine.Executor.{Made, made}
use cledyu.Engine.Handler.{
  Publisher, handle, publish_result, validate_check, validate_checks, validate_request,
}
use cledyu.Engine.Handler.Answers.{Published, kept_publisher, kept_new, kept_exec, handle-Published}
use cledyu.Engine.Handler.Fields.{blank_command_fails}
use cledyu.Engine.Consumer.{Message, Fetch, message, cancelled, Broker, consume, write_tries, run}
use cledyu.Engine.Consumer.Story.{Story, kept_broker, engine, run-Story}

abbrev request : ValidationRequest
request = record {
  trace_id = codes "t1";
  traceparent = [];
  session_id = codes "a1b2";
  step_id = pos 2;
  vm = record {
    type = kubevirt;
    name = codes "vm";
    namespace = codes "lab-a1b2";
    instance_id = [];
    region = [];
  };
  checks = hosts file_content ∷ [];
}

-- Everything goes out, and the queue of dead letters takes nothing.
abbrev sink : Publisher Unit
sink = record { publish = λ r w. (true, w); now = λ w. (0, w) }

abbrev full_dlq : Broker Unit
full_dlq = record { write_dlq = λ m w. (false, w); commit = λ m w. (true, w) }

abbrev one_vm : VmSpec → Unit {0} → Made (Unit {0}) × Unit {0}
one_vm spec w = (made vm, w)

abbrev read_request : Text → Option ValidationRequest
read_request [] = none
read_request (c ∷ s) = some request

abbrev blank : Message
blank = record { key = []; value = [] }

abbrev filled : Message
filled = record { key = codes "a1b2"; value = codes "{}" }

abbrev fetches : List Fetch
fetches = message blank ∷ message filled ∷ cancelled ∷ []

handle-Published_example :
    Published {M = Message} sink request []
      (handle (kept_publisher sink) (kept_new one_vm) request (tt, []))
handle-Published_example = handle-Published sink one_vm request (tt, [])

run-Story_example :
    Story read_request fetches
      (run read_request
        (kept_broker full_dlq)
        (engine read_request full_dlq sink one_vm)
        fetches
        (tt, [])).0
      []
      (run read_request
        (kept_broker full_dlq)
        (engine read_request full_dlq sink one_vm)
        fetches
        (tt, [])).1.1
run-Story_example = run-Story read_request full_dlq sink one_vm fetches (tt, [])

-- Three attempts, two commits and one result.
six_entries :
    length
      (run read_request
        (kept_broker full_dlq)
        (engine read_request full_dlq sink one_vm)
        fetches
        (tt, [])).1.1
    ≡ 6
unfolding run consume write_tries handle validate_request validate_checks validate_check
    publish_result kept_new kept_publisher kept_broker kept_exec run_all run_check run_type
    safe_path path_char
six_entries = refl

accepted : validate_check file_content (hosts file_content) ≡ none
unfolding validate_check
accepted = refl

abbrev expects_nothing : Check
expects_nothing = record lists_pods { expect = [] }

blank_command_fails_example :
    (validate_check command expects_nothing ≡ none)
    × ((run_check vm expects_nothing tt).0.passed ≡ false)
blank_command_fails_example = blank_command_fails vm expects_nothing tt refl refl refl

dead_passes_absent_example :
    (run_check (steady (λ cmd. exec_error (codes "refused"))) (hosts file_content) tt).0.passed
    ≡ is_absent file_content && (safe_path (codes "/etc/hosts") && not (is_empty (codes "myapp")))
dead_passes_absent_example = dead_passes_absent (codes "refused") (hosts file_content)
