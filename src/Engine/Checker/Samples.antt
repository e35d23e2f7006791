-- ===== src/Engine/Checker/Samples.antt =====
-- Instances of the checker's theorems, and checks on one VM.
use cledyu.Base.{◌≡◌, ◌≢◌, refl, true, List, [], ◌∷◌, codes, all}
use cledyu.Engine.{
  pos, negsuc, Check, CheckType, command, file_content, file_content_absent, http_response,
}
use cledyu.Engine.Checker.{output, VmExecutor, run, run_all, run_type}
use cledyu.Engine.Checker.Words.{
  safe_path, safe_command, command_char, path_char, url_char, decimal,
}
use cledyu.Engine.Checker.Safety.{recording, sent_ok, run_all-sent_ok}
use cledyu.Engine.Checker.Verdict.{FitAll, steady, run_all-FitAll, http_sends_amp}

abbrev check_of : CheckType → Check
check_of t = record {
  type = t;
  command = [];
  path = [];
  url = [];
  name = [];
  expect = [];
  expect_code = pos 0;
  timeout = pos 0;
}

abbrev pub hosts : CheckType → Check
hosts t = record (check_of t) { path = codes "/etc/hosts"; expect = codes "myapp" }

abbrev pub lists_pods : Check
lists_pods = record (check_of command) {
  command = codes "kubectl get pods";
  expect = codes "nginx";
}

abbrev sly : Check
sly = record (check_of command) { command = codes "ls; rm -rf /"; expect = codes "x" }

-- A VM where every file holds this text.
abbrev pub vm : VmExecutor Unit
vm = steady (λ cmd. output (codes "10.0.0.7 myapp"))

abbrev both : List Check
both = hosts file_content ∷ sly ∷ hosts file_content_absent ∷ []

run_all-FitAll_example :
    FitAll both (run_all vm both tt).0.0
    × ((run_all vm both tt).0.1 ≡ all (λ r. r.passed) (run_all vm both tt).0.0)
run_all-FitAll_example = run_all-FitAll vm both tt

run_all-sent_ok_example : all sent_ok (run_all (recording vm) both (tt, [])).1.1 ≡ true
run_all-sent_ok_example = run_all-sent_ok vm both (tt, []) refl

hosts-safe : safe_path (codes "/etc/hosts") ≡ true
unfolding safe_path path_char
hosts-safe = refl

-- `sly` is turned down before the VM sees it.
sly_unsent :
    (run_all (recording vm) both (tt, [])).1.1
    ≡ codes "cat /etc/hosts" ∷ codes "test -e /etc/hosts" ∷ codes "cat /etc/hosts" ∷ []
unfolding run_all run recording run_type safe_path path_char safe_command command_char
sly_unsent = refl

decimal_minus : decimal (negsuc 41) ≡ codes "-42"
unfolding decimal
decimal_minus = refl

abbrev reboots : Check
reboots = record (check_of http_response) { url = codes "http://x&reboot"; expect_code = pos 200 }

two_hundred : pos 200 ≢ pos 0
two_hundred e = cc

word : all url_char (codes "reboot") ≡ true
unfolding url_char
word = refl

letter : all url_char (codes "x") ≡ true
unfolding url_char
letter = refl

http_sends_amp_example :
    (run (recording vm) reboots (tt, [])).1.1
    ≡ codes "curl -s -o /dev/null -w %{http_code} http://x&reboot" ∷ []
http_sends_amp_example =
    http_sends_amp vm reboots (codes "x") (codes "reboot") (tt, []) refl two_hundred refl letter
      word refl
