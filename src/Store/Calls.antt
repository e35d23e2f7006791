-- ===== src/Store/Calls.antt =====
-- progress.go: sequences of the store's calls, with the callbacks that handlers/session.go passes.
use cledyu.Base.{
  ℕ, zero, suc, String, ◌≡◌, ◌≢◌, refl, ap, Bool, true, false, List, [], ◌∷◌, Option, none, some,
  arith, ltb, length, modify,
}
use cledyu.Progress.{
  SessionSteps, StepState, ValidationResult, mark_step_validating, apply_validation_result,
  apply_at, index_of,
}
use cledyu.Store.{SessionProgress, Database, load_failed, StoreState, with_session, put, take}

-- A database that does not fail.
pub record Reliable {D : Type 0} (d : Database D) : Type 0 where
  pub saves : (id : String) (p : SessionProgress) (w : D) → (d.save id p w).0 ≡ true
  pub loads : (id : String) (w : D) → (d.load id w).0 ≢ load_failed
  pub deletes : (id : String) (w : D) → (d.delete id w).0 ≡ true

-- A callback of `withSession` that reports what it changes.
pub record Change : Type 0 where
  pub fn : SessionSteps → SessionSteps × Bool
  pub honest : (ss : SessionSteps) → (fn ss).1 ≡ false → (fn ss).0 ≡ ss

modify-beyond :
    (l : List StepState) (i : ℕ) (f : StepState → StepState)
    → ltb i (length l) ≡ false
    → modify l i f ≡ l
modify-beyond [] i f h = refl
modify-beyond (x ∷ l) zero f h = ground (arith, h)
modify-beyond (x ∷ l) (suc i) f h = ap (λ r. x ∷ r) (modify-beyond l i f (ground (arith, h)))

abbrev has_index : Option ℕ → Bool
has_index none = false
has_index (some i) = true

pub validating-honest :
    (i : ℕ) (ss : SessionSteps) → ltb i (length ss.steps) ≡ false → mark_step_validating i ss ≡ ss
unfolding mark_step_validating
validating-honest i ss h = ap (λ l. record ss { steps = l }) (modify-beyond ss.steps i _ h)

apply-honest :
    (r : ValidationResult) (o : Option ℕ) (ss : SessionSteps)
    → has_index o ≡ false
    → (apply_at r o ss).steps ≡ ss
unfolding apply_at
apply-honest r none ss h = refl
apply-honest r (some i) ss h = cc

pub applied-honest :
    (r : ValidationResult) (ss : SessionSteps)
    → has_index (index_of r.step_id ss.steps) ≡ false
    → (apply_validation_result r ss).steps ≡ ss
unfolding apply_validation_result
applied-honest r ss h = apply-honest r (index_of r.step_id ss.steps) ss h

-- The callbacks of `markStepValidating` and `ApplyValidationResult`.
abbrev pub validating_change : ℕ → Change
validating_change i = record {
  fn = λ ss. (mark_step_validating i ss, ltb i (length ss.steps));
  honest = validating-honest i;
}

abbrev pub applying_change : ValidationResult → Change
applying_change r = record {
  fn = λ ss. ((apply_validation_result r ss).steps, has_index (index_of r.step_id ss.steps));
  honest = applied-honest r;
}

-- The calls of the store's methods.
pub data Op : Type 0 where
  changes : String → Change → Op
  puts : String → SessionSteps → Op
  takes : String → Op

abbrev pub restarted : {D : Type 0} → StoreState D → StoreState D
restarted s = ([], s.1)

module _ {D : Type 0} (d : Database D) where
  abbrev pub as_callback : Change → SessionSteps → (SessionSteps × Unit {0}) × Bool
  as_callback c ss = (((c.fn ss).0, tt), (c.fn ss).1)

  abbrev pub do_op : Op → StoreState D → StoreState D
  do_op (changes id c) s = (with_session (some d) id (as_callback c) s).1
  do_op (puts id ss) s = (put (some d) id ss s).1
  do_op (takes id) s = (take (some d) id s).1

  abbrev pub do_ops : List Op → StoreState D → StoreState D
  do_ops [] s = s
  do_ops (o ∷ os) s = do_ops os (do_op o s)
