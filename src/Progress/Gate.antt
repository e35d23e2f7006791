-- ===== src/Progress/Gate.antt =====
-- session.go, `findValidatableStepIndex`: what the server's order gate lets through.
use cledyu.Base.{
  ℕ, zero, suc, ◌≡◌, ◌≢◌, refl, ◌↔◌, List, [], ◌∷◌, some, arith, get_elem?, take, All, false,
}
use cledyu.Progress.{
  StepState, SessionSteps, passed, index_of, blocked, step_at, find_validatable, precheck_at,
}
use cledyu.Progress.Marks.{step_at-index}

-- The step at `i` has the ID, and each step in front of it has another one and is passed.
abbrev pub IsNext : ℕ → List StepState → ℕ → Type 0
IsNext id l i =
    (s : StepState) × (get_elem? l i ≡ some s)
    × (s.step_id ≡ id)
    × All (λ x. (x.step_id ≢ id) × (x.status ≡ passed)) (take i l)

index-IsNext :
    (id : ℕ) (l : List StepState) (i : ℕ)
    → index_of id l ≡ some i
    → blocked i l ≡ false
    → IsNext id l i
unfolding index_of blocked
index-IsNext id [] i e b = cc
index-IsNext id (s ∷ l) zero e b = (s, refl, ground arith, tt)
index-IsNext id (s ∷ l) (suc i) e b =
    let (x, p, q, r) = index-IsNext id l i (ground arith) (ground arith) in
    (x, p, q, ((ground arith, ground arith), r))

IsNext-index :
    (id : ℕ) (l : List StepState) (i : ℕ)
    → IsNext id l i
    → (index_of id l ≡ some i) × (blocked i l ≡ false)
unfolding index_of blocked
IsNext-index id [] i h = cc h.1
IsNext-index id (s ∷ l) zero h = ground arith
IsNext-index id (s ∷ l) (suc i) (x, p, q, ((d, t), r)) =
    ground (arith, IsNext-index id l i (x, p, q, r))

-- The gate lets a validation of an ID through, for the step at `i`, exactly when that is the first
-- step of the ID and every step in front of it is passed.
pub step_at-iff-IsNext :
    (id i : ℕ) (ss : SessionSteps) → (find_validatable id ss ≡ step_at i) ↔ IsNext id ss.steps i
unfolding find_validatable
step_at-iff-IsNext id i ss = (
  λ h. let (e, b) = step_at-index id i ss h in index-IsNext id ss.steps i e b,
  λ n. let (e, b) = IsNext-index id ss.steps i n in rw (e, precheck_at, b) refl,
)
