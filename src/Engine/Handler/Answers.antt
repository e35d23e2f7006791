-- ===== src/Engine/Handler/Answers.antt =====
-- main.go: every request is answered with one result.
use cledyu.Base.{
  ℕ, ◌-◌, ◌≡◌, ◌∙◌, refl, subst, ◌⊎◌, inl, inr, Bool, true, false, List, [], ◌∷◌, Option, none,
  some, arith, all, Bool-cases,
}
use cledyu.Engine.{
  VmSpec, Check, CheckType, ValidationRequest, ValidationResult, CheckResult, Reason, command,
  file_exists, dir_exists, file_absent, file_content_absent, file_content, process_running,
  http_response, request_error, unknown,
}
use cledyu.Engine.Checker.{VmExecutor, run, run_all, run_type, limit_of}
use cledyu.Engine.Checker.Verdict.{FitAll, run_all-FitAll}
use cledyu.Engine.Executor.{Made, made, unmade}
use cledyu.Engine.Handler.{
  Publisher, with_executor, answer, Handled, done, fatal, handle, validate_request, publish_result,
  result_of, turned_down, bad_vm,
}

pub data Entry (M : Type 0) : Type 0 where
  published unpublished : ValidationResult → Entry M
  shelved unshelved committed uncommitted : M → Entry M

-- Publishers and executors beside a log, the last entry first.
abbrev pub entry_of : {M : Type 0} → Bool → ValidationResult → Entry M
entry_of true r = published r
entry_of false r = unpublished r

module _ {W M : Type 0} where
  unfoldable pub kept_publisher : Publisher W → Publisher (W × List (Entry M))
  kept_publisher p = record {
    publish = λ r s. let (b, w) = p.publish r s.0 in (b, (w, entry_of b r ∷ s.1));
    now = λ s. let (t, w) = p.now s.0 in (t, (w, s.1));
  }

  unfoldable pub kept_exec : VmExecutor W → VmExecutor (W × List (Entry M))
  kept_exec exe = record {
    exec = λ limit cmd s. let (o, w) = exe.exec limit cmd s.0 in (o, (w, s.1));
    default_timeout = exe.default_timeout;
    close = λ s. (exe.close s.0, s.1);
  }

  abbrev kept_made : Made W → Made (W × List (Entry M))
  kept_made (made exe) = made (kept_exec exe)
  kept_made (unmade e) = unmade e

  unfoldable pub kept_new :
      (VmSpec → W → Made W × W)
      → VmSpec
      → W × List (Entry M)
      → Made (W × List (Entry M)) × (W × List (Entry M))
  kept_new new_exec vm s = let (m, w) = new_exec vm s.0 in (kept_made m, (w, s.1))

  -- Checks do not log.
  module _ (exe : VmExecutor W) where
    type-log :
        (limit : ℕ) (t : CheckType) (c : Check) (s : W × List (Entry M))
        → (run_type (kept_exec exe) limit t c s).1.1 ≡ s.1
    unfolding run_type kept_exec
    type-log limit command c s = ground arith
    type-log limit file_exists c s = ground arith
    type-log limit dir_exists c s = ground arith
    type-log limit file_absent c s = ground arith
    type-log limit file_content_absent c s = ground arith
    type-log limit file_content c s = ground arith
    type-log limit process_running c s = ground arith
    type-log limit http_response c s = ground arith
    type-log limit request_error c s = refl
    type-log limit (unknown t) c s = refl

    run_all-log :
        (cs : List Check) (s : W × List (Entry M)) → (run_all (kept_exec exe) cs s).1.1 ≡ s.1
    unfolding run_all run
    run_all-log [] s = refl
    run_all-log (c ∷ cs) s =
        let limit = limit_of (kept_exec exe).default_timeout c.timeout in
        run_all-log cs (run (kept_exec exe) c s).1 ∙ type-log limit c.type c s

-- A result that answers a request: its ids, the verdict of its checks, and either a result for each
-- check, in order, or one error for the whole request.
pub record Answers (req : ValidationRequest) (r : ValidationResult) : Type 0 where
  pub trace : r.trace_id ≡ req.trace_id
  pub session : r.session_id ≡ req.session_id
  pub step : r.step_id ≡ req.step_id
  pub verdict : r.passed ≡ all (λ c. c.passed) r.checks
  pub checked : FitAll req.checks r.checks ⊎ ((e : Reason) × (r.checks ≡ turned_down e))

module _ {W M : Type 0} (p : Publisher W) where
  -- One entry more, of a result that answers the request, and `done` if it went out.
  abbrev pub Published :
      ValidationRequest → List (Entry M) → Handled × (W × List (Entry M)) → Type 0
  Published req l r =
      (res : ValidationResult) × Answers req res
      × (((r.0 ≡ done) × (r.1.1 ≡ published res ∷ l))
          ⊎ ((r.0 ≡ fatal) × (r.1.1 ≡ unpublished res ∷ l)))

  result-Published :
      (start : ℕ) (req : ValidationRequest) (rs : List CheckResult) (ok : Bool)
      (s : W × List (Entry M))
      → ok ≡ all (λ c. c.passed) rs
      → FitAll req.checks rs ⊎ ((e : Reason) × (rs ≡ turned_down e))
      → Published req s.1 (publish_result (kept_publisher p) start req rs ok s)
  unfolding publish_result kept_publisher result_of
  result-Published start req rs ok s v f =
      let (end, w) = p.now s.0 in
      let res = result_of req rs ok (end - start) in
      (
        res,
        record { trace = refl; session = refl; step = refl; verdict = v; checked = f },
        elim (Bool-cases (p.publish res w).0) [
          | inl e ↦ inl (rw e refl, rw e refl)
          | inr e ↦ inr (rw e refl, rw e refl)
        ],
      )

  module _ (new_exec : VmSpec → W → Made W × W) where
    with-Published :
        (start : ℕ) (req : ValidationRequest) (m : Made W) (s : W × List (Entry M))
        → Published req s.1
            (with_executor (kept_publisher p) (kept_new new_exec) start req (kept_made m) s)
    unfolding kept_exec
    with-Published start req (unmade e) s =
        result-Published start req (turned_down (bad_vm e)) false s refl (inr (bad_vm e, refl))
    with-Published start req (made exe) s =
        let kept = kept_exec exe in
        let ((rs, ok), s1) = run_all kept req.checks s in
        let (f, v) = run_all-FitAll kept req.checks s in
        subst (λ l. Published req l (publish_result (kept_publisher p) start req rs ok s1))
          (run_all-log exe req.checks s) (result-Published start req rs ok s1 v (inl f))

    answer-Published :
        (start : ℕ) (req : ValidationRequest) (r : Option Reason) (s : W × List (Entry M))
        → Published req s.1 (answer (kept_publisher p) (kept_new new_exec) start req r s)
    unfolding kept_new
    answer-Published start req (some r) s =
        result-Published start req (turned_down r) false s refl (inr (r, refl))
    answer-Published start req none s =
        let (m, w) = new_exec req.vm s.0 in with-Published start req m (w, s.1)

    -- For every request, `handle` tries to publish one result: it has the request's ids, the verdict
    -- that all its checks passed, and a result for each of the request's checks, in their order, or a
    -- single error for the whole request. `handle` returns nil if it was published and a `FatalError`
    -- if not, never another error.
    pub handle-Published :
        (req : ValidationRequest) (s : W × List (Entry M))
        → Published req s.1 (handle (kept_publisher p) (kept_new new_exec) req s)
    unfolding handle kept_publisher
    handle-Published req s =
        let (start, w) = p.now s.0 in answer-Published start req (validate_request req) (w, s.1)
