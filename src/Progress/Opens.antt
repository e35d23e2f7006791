-- ===== src/Progress/Opens.antt =====
-- session.go: what opens a step.
use cledyu.Base.{
  ℕ, zero, suc, ◌≡◌, refl, inl, inr, Bool, true, false, List, [], ◌∷◌, Option, none, some, arith,
  modify, Bool-cases,
}
use cledyu.Progress.{
  StepState, ValidationResult, step_passed, to_validating, to_passed, unlock, raise_hint, raise_at,
  index_of, next_hint, mark_step_validating,
}
use cledyu.Progress.Links.{opened}
use cledyu.Progress.Marks.{after_result, steps-apply, steps-mark_step_passed, opened_at}
use cledyu.Progress.Unlock.{
  Lab, Move, request, mark, mock, deliver, hint, in_play, opened-requested, opened-mem,
}

abbrev pub passed_at : List StepState → ℕ → Bool
passed_at [] i = false
passed_at (s ∷ l) zero = step_passed s
passed_at (s ∷ l) (suc i) = passed_at l i

-- Writing an opened step opens no other.
opened_before :
    (f : StepState → StepState) (l : List StepState) (i k : ℕ)
    → opened l i ≡ true
    → opened (modify l i f) k ≡ true
    → opened l k ≡ true
opened_before f [] i k o h = h
opened_before f (s ∷ l) zero zero o h = o
opened_before f (s ∷ l) zero (suc k) o h = h
opened_before f (s ∷ l) (suc i) zero o h = h
opened_before f (s ∷ l) (suc i) (suc k) o h = opened_before f l i k o h

opened_same :
    (f : StepState → StepState)
    → ((s : StepState) → (f s).status ≡ s.status)
    → (l : List StepState) (i k : ℕ) → opened (modify l i f) k ≡ opened l k
opened_same f h [] i k = refl
opened_same f h (s ∷ l) zero zero = rw (h s) refl
opened_same f h (s ∷ l) zero (suc k) = refl
opened_same f h (s ∷ l) (suc i) zero = refl
opened_same f h (s ∷ l) (suc i) (suc k) = opened_same f h l i k

-- Passing an opened step opens the next one at most.
opened-pass :
    (f : StepState → StepState)
    → ((s : StepState) → step_passed (f s) ≡ true)
    → (l : List StepState) (i k : ℕ) → opened l i ≡ true
    → opened l (suc k) ≡ false
    → opened (modify (modify l i f) (suc i) unlock) (suc k) ≡ true
    → passed_at (modify (modify l i f) (suc i) unlock) k ≡ true
opened-pass f h [] i k o n p = cc
opened-pass f h (s ∷ l) zero zero o n p = h s
opened-pass f h (s ∷ []) zero (suc k) o n p = cc
opened-pass f h (s ∷ b ∷ l) zero (suc k) o n p = cc
opened-pass f h (s ∷ []) (suc i) k o n p = cc
opened-pass f h (s ∷ b ∷ l) (suc zero) zero o n p = cc
opened-pass f h (s ∷ b ∷ l) (suc (suc i)) zero o n p = cc
opened-pass f h (s ∷ l) (suc i) (suc k) o n p = opened-pass f h l i k o n p

result-opens :
    (r : ValidationResult) (o : Option ℕ) (l : List StepState) (k : ℕ)
    → opened_at l o ≡ true
    → opened l (suc k) ≡ false
    → opened (after_result r o l) (suc k) ≡ true
    → passed_at (after_result r o l) k ≡ true
result-opens r none l k o n p = cc
result-opens r (some i) l k o n p = elim (Bool-cases r.passed) [
  | inl e ↦ rw e (opened-pass _ (λ s. refl) l i k o n (rw e at p))
  | inr e ↦ cc (opened_before _ l i (suc k) o (rw e at p))
]

hint-opens :
    (o : Option ℕ) (level : ℕ) (l : List StepState) (k : ℕ)
    → opened (raise_at o level l) k ≡ opened l k
hint-opens none level l k = refl
hint-opens (some i) level l k = opened_same (raise_hint level) (λ s. refl) l i k

-- In a session that is in play, a move that opens a step leaves the step in front of it passed: no
-- request, hint, failed or repeated result opens a step in any other way.
pub Move-opens :
    (s t : Lab) (k : ℕ)
    → Move s t
    → in_play s ≡ true
    → opened s.progress.steps (suc k) ≡ false
    → opened t.progress.steps (suc k) ≡ true
    → passed_at t.progress.steps k ≡ true
unfolding next_hint mark_step_validating
Move-opens s t k (request id i g e) h n p = cc (rw e at p)
Move-opens s t k (mark id i m x e) h n p =
    let l = s.progress.steps in
    let o = opened-requested s id i m x h in
    cc (opened_before to_validating l i (suc k) o (rw e at p))
Move-opens s t k (mock id i m x e) h n p =
    let l = s.progress.steps in
    let o = opened-requested s id i m x h in
    let w = steps-mark_step_passed i s.progress o in
    rw (e, w) (opened-pass to_passed (λ x. refl) l i k o n (rw (e, w) at p))
Move-opens s t k (deliver r m e) h n p =
    let l = s.progress.steps in
    let w = steps-apply r s.progress in
    rw (e, w)
      (result-opens r (index_of r.step_id l) l k
        (opened-mem r.step_id l s.requested (ground arith) m) n (rw (e, w) at p))
Move-opens s t k (hint id explicit e) h n p =
    cc (hint-opens (index_of id s.progress.steps) _ s.progress.steps (suc k), rw e at p)
