-- ===== src/Engine/Checker/Safety.antt =====
-- checker.go: what can reach a shell of the VM.
use cledyu.Base.{
  ℕ, ◌≡◌, refl, inl, inr, Bool, true, ◌&&◌, ◌||◌, not, List, [], ◌∷◌, ◌++◌, codes, some, arith, all,
  all-append, Bool-cases, Option-cases,
}
use cledyu.Engine.{
  Text, Check, CheckType, CheckResult, command, file_exists, dir_exists, file_absent,
  file_content_absent, file_content, process_running, http_response, request_error, unknown,
}
use cledyu.Engine.Checker.{
  VmExecutor, run_command, run_file_exists, run_dir_exists, run_file_absent, run_file_content,
  run_file_content_absent, run_process_running, run_http_response, run_type, run, run_all, limit_of,
}
use cledyu.Engine.Checker.Words.{
  one_of, path_char, name_char, url_char, command_char, some_of, strip_prefix, behind, safe_path,
  safe_name, safe_url, safe_command, starts_with,
}

-- The characters by which a shell ends, joins, redirects or substitutes commands, but for `&`.
abbrev pub operators : Text
operators = codes ";|`$><()\\\n"

abbrev pub free : Text → Text → Bool
free ds s = all (λ c. not (one_of ds c)) s

-- No operator, and an `&` in a call of `curl` at most.
abbrev pub sent_ok : Text → Bool
sent_ok s = free operators s && (free (codes "&") s || starts_with s (codes "curl "))

-- An executor that also keeps the commands, the last one first.
unfoldable pub recording : {W : Type 0} → VmExecutor W → VmExecutor (W × List Text)
recording exe = record {
  exec = λ limit cmd s. let (o, w) = exe.exec limit cmd s.0 in (o, (w, cmd ∷ s.1));
  default_timeout = exe.default_timeout;
  close = λ s. (exe.close s.0, s.1);
}

abbrev plain : ℕ → Bool
plain c = not (one_of operators c) && not (one_of (codes "&") c)

path-plain : (c : ℕ) → path_char c ≡ true → plain c ≡ true
unfolding path_char
path-plain c h = ground arith

name-plain : (c : ℕ) → name_char c ≡ true → plain c ≡ true
unfolding name_char
name-plain c h = ground arith

command-plain : (c : ℕ) → command_char c ≡ true → plain c ≡ true
unfolding command_char
command-plain c h = ground arith

url-plain : (c : ℕ) → url_char c ≡ true → not (one_of operators c) ≡ true
unfolding url_char
url-plain c h = ground arith

all-imp :
    (p q : ℕ → Bool)
    → ((c : ℕ) → p c ≡ true → q c ≡ true)
    → (s : Text) → all p s ≡ true
    → all q s ≡ true
all-imp p q h [] e = refl
all-imp p q h (c ∷ s) e = ground (arith, h c, all-imp p q h s)

plain-sent_ok : (s : Text) → all plain s ≡ true → sent_ok s ≡ true
plain-sent_ok s h = ground (
  arith,
  all-imp plain (λ c. not (one_of operators c)) (λ c p. ground arith) s h,
  all-imp plain (λ c. not (one_of (codes "&") c)) (λ c p. ground arith) s h,
)

some_of-all : (p : ℕ → Bool) (s : Text) → some_of p s ≡ true → all p s ≡ true
some_of-all p [] h = refl
some_of-all p (c ∷ s) h = h

strip_prefix-append : (pre s : Text) (r : Text) → strip_prefix pre s ≡ some r → s ≡ pre ++ r
strip_prefix-append [] s r h = ground arith
strip_prefix-append (c ∷ pre) [] r h = cc
strip_prefix-append (c ∷ pre) (d ∷ s) r h = ground (arith, strip_prefix-append pre s r)

behind-append :
    (pre s : Text) (p : ℕ → Bool)
    → behind (strip_prefix pre s) p ≡ true
    → (r : Text) × (s ≡ pre ++ r) × (all p r ≡ true)
behind-append pre s p h = elim (Option-cases (strip_prefix pre s)) [
  | inl e ↦ cc (rw e at h)
  | inr (r, e) ↦ (r, strip_prefix-append pre s r e, some_of-all p r (rw e at h))
]

path-sent_ok :
    (pre s : Text) → all plain pre ≡ true → safe_path s ≡ true → sent_ok (pre ++ s) ≡ true
unfolding safe_path
path-sent_ok pre s a h =
    let (r, e, p) = behind-append (codes "/") s path_char h in
    plain-sent_ok (pre ++ s)
      (all-append plain pre s a (rw e (all-imp path_char plain path-plain r p)))

name-sent_ok :
    (pre s : Text) → all plain pre ≡ true → safe_name s ≡ true → sent_ok (pre ++ s) ≡ true
unfolding safe_name
name-sent_ok pre s a h =
    plain-sent_ok (pre ++ s)
      (all-append plain pre s a (all-imp name_char plain name-plain s (some_of-all name_char s h)))

command-sent_ok : (s : Text) → safe_command s ≡ true → sent_ok s ≡ true
unfolding safe_command
command-sent_ok s h =
    plain-sent_ok s (all-imp command_char plain command-plain s (some_of-all command_char s h))

curl-sent_ok :
    (s : Text)
    → free operators s ≡ true
    → sent_ok (codes "curl -s -o /dev/null -w %{http_code} " ++ s) ≡ true
curl-sent_ok s h = ground (
  arith,
  all-append (λ c. not (one_of operators c)) (codes "curl -s -o /dev/null -w %{http_code} ") s refl
      h,
)

url-free : (s : Text) → safe_url s ≡ true → free operators s ≡ true
unfolding safe_url
url-free s h = elim (Bool-cases (behind (strip_prefix (codes "http://") s) url_char)) [
  | inl b ↦ with_prefix (codes "http://") refl b
  | inr n ↦ with_prefix (codes "https://") refl (ground arith)
]
  where
    with_prefix :
        (pre : Text)
        → free operators pre ≡ true
        → behind (strip_prefix pre s) url_char ≡ true
        → free operators s ≡ true
    with_prefix pre f b =
        let (r, e, p) = behind-append pre s url_char b in
        rw e (
          all-append (λ c. not (one_of operators c)) pre r f
            (all-imp url_char (λ c. not (one_of operators c)) url-plain r p))

module _ {W : Type 0} (exe : VmExecutor W) (limit : ℕ) where
  abbrev OkAfter : CheckResult × (W × List Text) → Type 0
  OkAfter r = all sent_ok r.1.1 ≡ true

  command-ok :
      (c : Check) (s : W × List Text)
      → all sent_ok s.1 ≡ true
      → OkAfter (run_command (recording exe) limit c s)
  unfolding run_command recording
  command-ok c s h = ground (arith, command-sent_ok c.command)

  file_exists-ok :
      (c : Check) (s : W × List Text)
      → all sent_ok s.1 ≡ true
      → OkAfter (run_file_exists (recording exe) limit c s)
  unfolding run_file_exists recording
  file_exists-ok c s h = ground (arith, path-sent_ok (codes "test -f ") c.path refl)

  dir_exists-ok :
      (c : Check) (s : W × List Text)
      → all sent_ok s.1 ≡ true
      → OkAfter (run_dir_exists (recording exe) limit c s)
  unfolding run_dir_exists recording
  dir_exists-ok c s h = ground (arith, path-sent_ok (codes "test -d ") c.path refl)

  file_absent-ok :
      (c : Check) (s : W × List Text)
      → all sent_ok s.1 ≡ true
      → OkAfter (run_file_absent (recording exe) limit c s)
  unfolding run_file_absent recording
  file_absent-ok c s h = ground (arith, path-sent_ok (codes "test ! -f ") c.path refl)

  file_content-ok :
      (c : Check) (s : W × List Text)
      → all sent_ok s.1 ≡ true
      → OkAfter (run_file_content (recording exe) limit c s)
  unfolding run_file_content recording
  file_content-ok c s h = ground (arith, path-sent_ok (codes "cat ") c.path refl)

  content_absent-ok :
      (c : Check) (s : W × List Text)
      → all sent_ok s.1 ≡ true
      → OkAfter (run_file_content_absent (recording exe) limit c s)
  unfolding run_file_content_absent recording
  content_absent-ok c s h =
      ground (
        arith,
        path-sent_ok (codes "test -e ") c.path refl,
        path-sent_ok (codes "cat ") c.path refl,
      )

  process-ok :
      (c : Check) (s : W × List Text)
      → all sent_ok s.1 ≡ true
      → OkAfter (run_process_running (recording exe) limit c s)
  unfolding run_process_running recording
  process-ok c s h = ground (arith, name-sent_ok (codes "pgrep ") c.name refl)

  http-ok :
      (c : Check) (s : W × List Text)
      → all sent_ok s.1 ≡ true
      → OkAfter (run_http_response (recording exe) limit c s)
  unfolding run_http_response recording
  http-ok c s h = ground (arith, url-free c.url, curl-sent_ok c.url)

  type-ok :
      (t : CheckType) (c : Check) (s : W × List Text)
      → all sent_ok s.1 ≡ true
      → OkAfter (run_type (recording exe) limit t c s)
  unfolding run_type
  type-ok command c s h = command-ok c s h
  type-ok file_exists c s h = file_exists-ok c s h
  type-ok dir_exists c s h = dir_exists-ok c s h
  type-ok file_absent c s h = file_absent-ok c s h
  type-ok file_content_absent c s h = content_absent-ok c s h
  type-ok file_content c s h = file_content-ok c s h
  type-ok process_running c s h = process-ok c s h
  type-ok http_response c s h = http-ok c s h
  type-ok request_error c s h = h
  type-ok (unknown t) c s h = h

-- Whatever the checks say and the VM answers, every command that reaches the executor is free of
-- the operators by which a shell ends, joins, redirects or substitutes commands, except that the
-- calls of `curl` may hold an `&`.
pub run_all-sent_ok :
    {W : Type 0} (exe : VmExecutor W) (cs : List Check) (s : W × List Text)
    → all sent_ok s.1 ≡ true
    → all sent_ok (run_all (recording exe) cs s).1.1 ≡ true
unfolding run_all run
run_all-sent_ok exe [] s h = h
run_all-sent_ok exe (c ∷ cs) s h =
    let limit = limit_of (recording exe).default_timeout c.timeout in
    run_all-sent_ok exe cs (run (recording exe) c s).1 (type-ok exe limit c.type c s h)
