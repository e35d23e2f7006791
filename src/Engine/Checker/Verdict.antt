-- ===== src/Engine/Checker/Verdict.antt =====
-- checker.go: what the results of the checks say.
use cledyu.Base.{
  ℕ, zero, suc, ◌≡◌, ◌≢◌, refl, ap, ◌⊎◌, true, false, ◌&&◌, not, Bool, List, [], ◌∷◌, ◌++◌, codes,
  arith, all, all-append,
}
use cledyu.Engine.{
  ℤ, pos, negsuc, Text, Check, CheckType, CheckResult, command, file_exists, dir_exists,
  file_absent, file_content_absent, file_content, process_running, http_response, request_error,
  unknown, vm_timeout,
}
use cledyu.Engine.Checker.{
  Outcome, output, exec_error, VmExecutor, run_http_response, is_zero, run_type, run, run_all,
  limit_of, pass, fail, request_error_result,
}
use cledyu.Engine.Checker.Words.{
  is_empty, contains, safe_path, safe_url, url_char, some_of, is_empty,
}
use cledyu.Engine.Checker.Safety.{recording}

-- A result bears its check's type, or says that the VM did not answer in time.
abbrev pub Fits : CheckType → CheckResult → Type 0
Fits t r = (r.type ≡ t) ⊎ ((r.type ≡ request_error) × (r.passed ≡ false) × (r.detail ≡ vm_timeout))

abbrev pub FitAll : List Check → List CheckResult → Type 0
FitAll [] [] = Unit {0}
FitAll [] (r ∷ rs) = ⊥
FitAll (c ∷ cs) [] = ⊥
FitAll (c ∷ cs) (r ∷ rs) = Fits c.type r × FitAll cs rs

module _ {W : Type 0} (exe : VmExecutor W) where
  type-Fits :
      (limit : ℕ) (t : CheckType) (c : Check) (w : W) → Fits c.type (run_type exe limit t c w).0
  unfolding run_type pass fail request_error_result
  type-Fits limit command c w = ground arith
  type-Fits limit file_exists c w = ground arith
  type-Fits limit dir_exists c w = ground arith
  type-Fits limit file_absent c w = ground arith
  type-Fits limit file_content_absent c w = ground arith
  type-Fits limit file_content c w = ground arith
  type-Fits limit process_running c w = ground arith
  type-Fits limit http_response c w = ground arith
  type-Fits limit request_error c w = ground arith
  type-Fits limit (unknown t) c w = ground arith

  -- `RunAll` runs every check, also behind a failed one: there is a result for each check, in their
  -- order, of its type or a timeout of the VM, and the verdict is that all results passed.
  pub run_all-FitAll :
      (cs : List Check) (w : W)
      → FitAll cs (run_all exe cs w).0.0
        × ((run_all exe cs w).0.1 ≡ all (λ r. r.passed) (run_all exe cs w).0.0)
  unfolding run_all run
  run_all-FitAll [] w = (tt, refl)
  run_all-FitAll (c ∷ cs) w =
      let limit = limit_of exe.default_timeout c.timeout in
      let w1 = (run exe c w).1 in
      let (f, v) = run_all-FitAll cs w1 in
      ((type-Fits limit c.type c w, f), ap (λ b. (run exe c w).0.passed && b) v)

-- A VM that answers by the command alone.
abbrev pub steady : (Text → Outcome) → VmExecutor Unit
steady f = record { exec = λ limit cmd w. (f cmd, w); default_timeout = 20; close = λ w. w }

-- On a VM where the file is there and can be read, with an acceptable path and a text to look for,
-- exactly one of `file_content` and `file_content_absent` passes for them: the first if the text is
-- in the file.
pub content_one_passes :
    (f : Text → Outcome) (c d : Check) (text answer : Text)
    → c.type ≡ file_content
    → d.type ≡ file_content_absent
    → d.path ≡ c.path
    → d.expect ≡ c.expect
    → safe_path c.path ≡ true
    → is_empty c.expect ≡ false
    → f (codes "test -e " ++ c.path) ≡ output answer
    → f (codes "cat " ++ c.path) ≡ output text
    → ((run (steady f) c tt).0.passed ≡ contains text c.expect)
      × ((run (steady f) d tt).0.passed ≡ not (contains text c.expect))
unfolding run run_type pass fail
content_one_passes f c d text answer tc td dp de s e x y = ground (arith, s, e, x, y)

abbrev pub is_absent : CheckType → Bool
is_absent file_content_absent = true
is_absent _ = false

module _ (e : Text) where
  dead-passed :
      (limit : ℕ) (t : CheckType) (c : Check)
      → (run_type (steady (λ cmd. exec_error e)) limit t c tt).0.passed
        ≡ is_absent t && (safe_path c.path && not (is_empty c.expect))
  unfolding run_type pass fail
  dead-passed limit command c = ground arith
  dead-passed limit file_exists c = ground arith
  dead-passed limit dir_exists c = ground arith
  dead-passed limit file_absent c = ground arith
  dead-passed limit file_content_absent c = ground arith
  dead-passed limit file_content c = ground arith
  dead-passed limit process_running c = ground arith
  dead-passed limit http_response c = ground arith
  dead-passed limit request_error c = ground arith
  dead-passed limit (unknown t) c = ground arith

  -- On a VM that answers every command with an error other than the timeout, such as one that cannot be
  -- reached, the checks that pass are those of `file_content_absent` with an acceptable path and a text
  -- to look for: they take every error of the file's test for a missing file.
  pub dead_passes_absent :
      (c : Check)
      → (run (steady (λ cmd. exec_error e)) c tt).0.passed
        ≡ is_absent c.type && (safe_path c.path && not (is_empty c.expect))
  unfolding run
  dead_passes_absent c = dead-passed (limit_of 20 c.timeout) c.type c

char_amp : all url_char (codes "&") ≡ true
unfolding url_char
char_amp = refl

some_of-append :
    (a b : Text)
    → is_empty a ≡ false
    → all url_char a ≡ true
    → all url_char b ≡ true
    → some_of url_char (a ++ b) ≡ true
some_of-append [] b n ha hb = cc
some_of-append (x ∷ a) b n ha hb = all-append url_char (x ∷ a) b ha hb

amp-safe :
    (a b : Text)
    → is_empty a ≡ false
    → all url_char a ≡ true
    → all url_char b ≡ true
    → safe_url (codes "http://" ++ (a ++ (codes "&" ++ b))) ≡ true
unfolding safe_url
amp-safe a b n ha hb =
    rw (some_of-append a (codes "&" ++ b) n ha (all-append url_char (codes "&") b char_amp hb)) refl

not_zero : (z : ℤ) → z ≢ pos 0 → is_zero z ≡ false
not_zero (pos zero) e = elim (e refl) [ ]
not_zero (pos (suc n)) e = refl
not_zero (negsuc n) e = refl

http_sent :
    {W : Type 0} (exe : VmExecutor W) (limit : ℕ) (c : Check) (s : W × List Text)
    → c.expect_code ≢ pos 0
    → safe_url c.url ≡ true
    → (run_http_response (recording exe) limit c s).1.1
      ≡ (codes "curl -s -o /dev/null -w %{http_code} " ++ c.url) ∷ s.1
unfolding run_http_response recording
http_sent exe limit c s e u = rw (not_zero c.expect_code e) (rw u refl)

http_type :
    {W : Type 0} (exe : VmExecutor W) (limit : ℕ) (t : CheckType) (c : Check) (w : W)
    → t ≡ http_response
    → run_type exe limit t c w ≡ run_http_response exe limit c w
unfolding run_type
http_type exe limit t c w h = rw h refl

-- A URL of `http://`, a word, `&` and another word, of the characters that the pattern allows, goes to
-- the VM's shell as it is, unquoted, where `&` ends the call of `curl` and the second word is a
-- command of its own.
pub http_sends_amp :
    {W : Type 0} (exe : VmExecutor W) (c : Check) (a b : Text) (s : W × List Text)
    → c.type ≡ http_response
    → c.expect_code ≢ pos 0
    → is_empty a ≡ false
    → all url_char a ≡ true
    → all url_char b ≡ true
    → c.url ≡ codes "http://" ++ (a ++ (codes "&" ++ b))
    → (run (recording exe) c s).1.1
      ≡ (codes "curl -s -o /dev/null -w %{http_code} http://" ++ (a ++ (codes "&" ++ b))) ∷ s.1
unfolding run
http_sends_amp exe c a b s t e n ha hb u =
    let limit = limit_of (recording exe).default_timeout c.timeout in
    rw
      (
        http_type (recording exe) limit c.type c s t,
        http_sent exe limit c s e (rw u (amp-safe a b n ha hb)),
      )
      (ap (λ l. (codes "curl -s -o /dev/null -w %{http_code} " ++ l) ∷ s.1) u)
