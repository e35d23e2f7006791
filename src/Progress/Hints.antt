-- ===== src/Progress/Hints.antt =====
-- hint.go, `nextHint`: the levels of the hints.
use cledyu.Base.{
  ℕ, zero, suc, ◌+◌, ◌≤◌, ◌≡◌, refl, List, [], ◌∷◌, some, arith, get_elem?, modify, ◌∙◌, subst,
}
use cledyu.Progress.{
  StepState, SessionSteps, index_of, next_hint, hint_at, raise_hint, step_of, max_hint_level,
}
use cledyu.Progress.Marks.{index_of-modify}
use Prim.Native.Nat.{min}

-- Requests for a hint on one step with no level given, one after the other.
pub ask : ℕ → ℕ → SessionSteps → SessionSteps
ask zero id ss = ss
ask (suc n) id ss = (next_hint id 0 (ask n id ss)).1

get-modify :
    (l : List StepState) (i : ℕ) (f : StepState → StepState) (s : StepState)
    → get_elem? l i ≡ some s
    → get_elem? (modify l i f) i ≡ some (f s)
get-modify [] i f s h = cc
get-modify (x ∷ l) zero f s h = ground arith
get-modify (x ∷ l) (suc i) f s h = get-modify l i f s h

-- The step of an ID has been given hints up to a level.
abbrev pub HasLevel : ℕ → ℕ → SessionSteps → ℕ → Type 0
HasLevel id i ss level =
    (index_of id ss.steps ≡ some i)
    × ((s : StepState) × (get_elem? ss.steps i ≡ some s) × (s.hint_level ≡ level))

level_after :
    (id i level : ℕ) (ss : SessionSteps) (s : StepState)
    → level ≤ max_hint_level
    → index_of id ss.steps ≡ some i
    → get_elem? ss.steps i ≡ some s
    → s.hint_level ≡ level
    → hint_at (step_of (index_of id ss.steps) ss.steps) 0 ≡ min (level + 1) max_hint_level
unfolding hint_at
level_after id i level ss s b e g h = rw (e, g) (ground (arith, h))

next-HasLevel :
    (id i level : ℕ) (ss : SessionSteps)
    → level ≤ max_hint_level
    → HasLevel id i ss level
    → ((next_hint id 0 ss).0 ≡ min (level + 1) max_hint_level)
      × HasLevel id i (next_hint id 0 ss).1 (min (level + 1) max_hint_level)
unfolding next_hint
next-HasLevel id i level ss b (e, (s, g, h)) =
    let m = level_after id i level ss s b e g h in
    let f = raise_hint (min (level + 1) max_hint_level) in
    (
      m,
      rw (m, e)
          (
            index_of-modify f (λ _. refl) id ss.steps i ∙ e,
            (f s, get-modify ss.steps i f s g, ground arith),
          ),
    )

ask-HasLevel :
    (n id i last : ℕ) (ss : SessionSteps)
    → last ≤ max_hint_level
    → HasLevel id i ss last
    → HasLevel id i (ask n id ss) (min (last + n) max_hint_level)
unfolding ask
ask-HasLevel zero id i last ss b h =
    let e : last ≡ min (last + 0) max_hint_level = omega arith in subst (HasLevel id i ss) e h
ask-HasLevel (suc n) id i last ss b h =
    let level = min (last + n) max_hint_level in
    let e : min (level + 1) max_hint_level ≡ min (last + suc n) max_hint_level = omega arith in
    subst (HasLevel id i (ask (suc n) id ss)) e
      (next-HasLevel id i level (ask n id ss) (omega arith) (ask-HasLevel n id i last ss b h)).1

-- For a step whose last hint had the level `last`, at most 3, the request after n others with no
-- level given is answered at the level `last + n + 1`, but never above 3.
pub ask-level :
    (n id i last : ℕ) (ss : SessionSteps)
    → last ≤ max_hint_level
    → HasLevel id i ss last
    → (next_hint id 0 (ask n id ss)).0 ≡ min (last + n + 1) max_hint_level
ask-level n id i last ss b h = omega (
  arith,
  (next-HasLevel id i (min (last + n) max_hint_level) (ask n id ss) (omega arith)
      (ask-HasLevel n id i last ss b h)).0,
)
