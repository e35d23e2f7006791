-- ===== src/Progress/Unlock.antt =====
-- session.go: a session under any history of validation requests, results and hints. The parts of
-- `ValidateStep` are moves of their own, since the store's lock is free between them. A result can
-- be delivered early, late, again, or out of turn, as Kafka delivers at least once, but only for a step
-- whose validation was requested.
use cledyu.Base.{
  ℕ, suc, ◌≡◌, refl, subst, String, Bool, true, false, ◌&&◌, ◌||◌, List, [], ◌∷◌, Option, none,
  some, arith, modify, Bool-cases, inl, inr, ◌==◌,
}
use cledyu.Progress.{
  StepState, SessionSteps, ValidationResult, initial, index_of, step_at, find_validatable,
  mark_step_validating, mark_step_passed, apply_validation_result, next_hint, raise_at, raise_hint,
  to_validating, to_passed, to_result, unlock, passed,
}
use cledyu.Progress.Links.{in_order, opened, chain-modify, chain-pass, initial-in_order}
use cledyu.Progress.Marks.{
  opened-blocked, opened_at, all_opened, all_opened-modify, chain-same, step_at-index,
  steps-mark_step_passed, after_result, steps-apply, result-stays,
}

pub record Lab : Type 0 where
  pub progress : SessionSteps
  pub requested : List ℕ

abbrev pub mem : ℕ → List ℕ → Bool
mem id [] = false
mem id (x ∷ l) = x == id || mem id l

-- A validation request that passes the gate; behind that, as often as it may be, the step's mark as
-- validating (with the engine) or as passed (without it), and its results; a hint.
pub data Move (s t : Lab) : Type 0 where
  request :
      (id i : ℕ)
      → find_validatable id s.progress ≡ step_at i
      → t ≡ record s { requested = id ∷ s.requested }
      → Move s t
  mark :
      (id i : ℕ)
      → mem id s.requested ≡ true
      → index_of id s.progress.steps ≡ some i
      → t ≡ record s { progress = mark_step_validating i s.progress }
      → Move s t
  mock :
      (id i : ℕ)
      → mem id s.requested ≡ true
      → index_of id s.progress.steps ≡ some i
      → t ≡ record s { progress = (mark_step_passed i s.progress).0 }
      → Move s t
  deliver :
      (r : ValidationResult)
      → mem r.step_id s.requested ≡ true
      → t ≡ record s { progress = (apply_validation_result r s.progress).steps }
      → Move s t
  hint :
      (id explicit : ℕ)
      → t ≡ record s { progress = (next_hint id explicit s.progress).1 }
      → Move s t

pub data Reach (s : Lab) : Lab → Type 0 where
  here : Reach s s
  next : {t u : Lab} → Reach s t → Move t u → Reach s u

abbrev pub in_play : Lab → Bool
in_play s = in_order s.progress.steps && all_opened s.progress.steps s.requested

pub opened-mem :
    (id : ℕ) (l : List StepState) (ids : List ℕ)
    → all_opened l ids ≡ true
    → mem id ids ≡ true
    → opened_at l (index_of id l) ≡ true
opened-mem id l [] h m = cc
opened-mem id l (x ∷ ids) h m = ground (arith, opened-mem id l ids)

-- The step of an ID with a request is open.
pub opened-requested :
    (s : Lab) (id i : ℕ)
    → mem id s.requested ≡ true
    → index_of id s.progress.steps ≡ some i
    → in_play s ≡ true
    → opened s.progress.steps i ≡ true
opened-requested s id i m e h =
    subst (λ o. opened_at s.progress.steps o ≡ true) e
      (opened-mem id s.progress.steps s.requested (ground arith) m)

-- Lab-level preservation, by kind of move.
request-in_play :
    (s : Lab) (id i : ℕ)
    → find_validatable id s.progress ≡ step_at i
    → in_play s ≡ true
    → in_play (record s { requested = id ∷ s.requested }) ≡ true
request-in_play s id i g h =
    let l = s.progress.steps in
    let (e, b) = step_at-index id i s.progress g in
    let o : opened l i ≡ true = opened-blocked id l i (ground arith) e b in ground (arith, o, e)

mark-in_play :
    (s : Lab) (id i : ℕ)
    → mem id s.requested ≡ true
    → index_of id s.progress.steps ≡ some i
    → in_play s ≡ true
    → in_play (record s { progress = mark_step_validating i s.progress }) ≡ true
unfolding mark_step_validating
mark-in_play s id i m e h =
    let l = s.progress.steps in
    let o = opened-requested s id i m e h in
    ground (
      arith,
      o,
      chain-modify to_validating (λ _. refl) (λ _. refl) passed l i o,
      all_opened-modify to_validating (λ _. refl) (λ _ _. refl) l i s.requested,
    )

mock-in_play :
    (s : Lab) (id i : ℕ)
    → mem id s.requested ≡ true
    → index_of id s.progress.steps ≡ some i
    → in_play s ≡ true
    → in_play (record s { progress = (mark_step_passed i s.progress).0 }) ≡ true
mock-in_play s id i m e h =
    let l = s.progress.steps in
    let o = opened-requested s id i m e h in
    rw (steps-mark_step_passed i s.progress o) (
      ground (
        arith,
        chain-pass to_passed (λ _. refl) passed l i o,
        all_opened-modify to_passed (λ _. refl) (λ _ _. refl) l i s.requested,
        all_opened-modify unlock (λ _. refl) (λ x p. ground arith) (modify l i to_passed) (suc i)
            s.requested,
      ))

result-in_play :
    (r : ValidationResult) (o : Option ℕ) (l : List StepState) (ids : List ℕ)
    → (in_order l && all_opened l ids) ≡ true
    → opened_at l o ≡ true
    → (in_order (after_result r o l) && all_opened (after_result r o l) ids) ≡ true
result-in_play r none l ids h o = h
result-in_play r (some i) l ids h o = elim (Bool-cases r.passed) [
  | inl p ↦
      let l' = modify l i (to_result r) in
      ground (
        arith,
        p,
        chain-pass (to_result r) (λ x. ground arith) passed l i o,
        all_opened-modify (to_result r) (λ _. refl) (result-stays r) l i ids,
        all_opened-modify unlock (λ _. refl) (λ x p. ground arith) l' (suc i) ids,
      )
  | inr q ↦ ground (
    arith,
    q,
    chain-modify (to_result r) (λ x. ground arith) (λ x. ground arith) passed l i o,
    all_opened-modify (to_result r) (λ _. refl) (result-stays r) l i ids,
  )
]

deliver-in_play :
    (s : Lab) (r : ValidationResult)
    → mem r.step_id s.requested ≡ true
    → in_play s ≡ true
    → in_play (record s { progress = (apply_validation_result r s.progress).steps }) ≡ true
deliver-in_play s r m h =
    let l = s.progress.steps in
    rw (steps-apply r s.progress) (
      result-in_play r (index_of r.step_id l) l s.requested h
        (opened-mem r.step_id l s.requested (ground arith) m))

hint-raise :
    (o : Option ℕ) (level : ℕ) (l : List StepState) (ids : List ℕ)
    → (in_order l && all_opened l ids) ≡ true
    → (in_order (raise_at o level l) && all_opened (raise_at o level l) ids) ≡ true
hint-raise none level l ids h = h
hint-raise (some i) level l ids h = ground (
  arith,
  chain-same (raise_hint level) (λ _. refl) passed l i,
  all_opened-modify (raise_hint level) (λ _. refl) (λ x p. p) l i ids,
)

hint-in_play :
    (s : Lab) (id explicit : ℕ)
    → in_play s ≡ true
    → in_play (record s { progress = (next_hint id explicit s.progress).1 }) ≡ true
unfolding next_hint
hint-in_play s id explicit h =
    hint-raise (index_of id s.progress.steps) _ s.progress.steps s.requested h

Move-in_play : {s t : Lab} → Move s t → in_play s ≡ true → in_play t ≡ true
Move-in_play {s} (request id i g e) h = rw e (request-in_play s id i g h)
Move-in_play {s} (mark id i m x e) h = rw e (mark-in_play s id i m x h)
Move-in_play {s} (mock id i m x e) h = rw e (mock-in_play s id i m x h)
Move-in_play {s} (deliver r m e) h = rw e (deliver-in_play s r m h)
Move-in_play {s} (hint id explicit e) h = rw e (hint-in_play s id explicit h)

-- After any history of a new session, its opened steps come first and the step behind a passed one is
-- open, whatever marks and results are late or repeated, and every step with a request is open.
pub Reach-in_play :
    (lab uid : String) (ids : List ℕ) {t : Lab}
    → Reach (record { progress = initial lab uid ids; requested = [] }) t
    → in_play t ≡ true
unfolding initial
Reach-in_play lab uid ids here = ground (arith, initial-in_order ids)
Reach-in_play lab uid ids (next r m) = Move-in_play m (Reach-in_play lab uid ids r)
