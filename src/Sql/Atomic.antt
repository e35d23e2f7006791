-- ===== src/Sql/Atomic.antt =====
-- What a transaction leaves behind: all that its body did, or nothing.
use cledyu.Base.{◌≡◌, refl, ◌⊎◌, inl, inr, Bool, true, false, List, Option, none, some}
use cledyu.Sql.{
  Turn, works, breaks, loses, Result, ok, err, Pg, next, Tx, bind, turned, stmt, committed, closed,
  begun, in_tx, executed, exec, answered, query,
}

-- What holds of the result and the tables, if there is no error.
abbrev pub Ensures : {T E R : Type 0} → (R → T → Type 0) → Result E R × (T × List Turn) → Type 0
Ensures P (ok r, (t, ts)) = P r t
Ensures P (err e, s) = Unit

-- An error, too, may have left what the body did: its answer got lost.
abbrev pub Atomic : {T E R : Type 0} → (R → T → Type 0) → T → Result E R × Pg T → Type 0
Atomic P t (ok r, pg) = P r pg.tables
Atomic {R} P t (err e, pg) = (pg.tables ≡ t) ⊎ ((r : R) × P r pg.tables)

module _ {T E : Type 0} where
  pub Ensures-map :
      {R : Type 0} (P Q : R → T → Type 0) (a : Result E R × (T × List Turn))
      → ((r : R) (t : T) → P r t → Q r t)
      → Ensures P a
      → Ensures Q a
  Ensures-map P Q (ok r, (t, ts)) f h = f r t h
  Ensures-map P Q (err e, s) f h = tt

  turned-Ensures :
      {A B : Type 0} (P : B → T → Type 0) (n : Turn × List Turn) (e : E) (r : A × T) (t : T)
      (k : A → Tx T E B)
      → ((ts : List Turn) → Ensures P (k r.0 (r.1, ts)))
      → Ensures P (bind (turned n e r t) k)
  turned-Ensures P (works, ts) e (a, t') t k h = h ts
  turned-Ensures P (breaks, ts) e r t k h = tt
  turned-Ensures P (loses, ts) e r t k h = tt

  -- A statement, and what comes behind it.
  pub stmt-Ensures :
      {A B : Type 0} (P : B → T → Type 0) (e : E) (f : T → A × T) (k : A → Tx T E B) (t : T)
      (ts : List Turn)
      → ((ts' : List Turn) → Ensures P (k (f t).0 ((f t).1, ts')))
      → Ensures P (bind (stmt e f (t, ts)) k)
  unfolding stmt
  stmt-Ensures P e f k t ts h = turned-Ensures P (next ts) e (f t) t k h

  committed-Atomic :
      {R : Type 0} (P : R → T → Type 0) (n : Turn × List Turn) (e : E) (r : R) (t' t : T)
      → P r t'
      → Atomic P t (committed n e r t' t)
  committed-Atomic P (works, ts) e r t' t h = h
  committed-Atomic P (breaks, ts) e r t' t h = inl refl
  committed-Atomic P (loses, ts) e r t' t h = inr (r, h)

  closed-Atomic :
      {R : Type 0} (P : R → T → Type 0) (e : E) (t : T) (a : Result E R × (T × List Turn))
      → Ensures P a
      → Atomic P t (closed e t a)
  closed-Atomic P e t (ok r, (t', ts)) h = committed-Atomic P (next ts) e r t' t h
  closed-Atomic P e t (err e', (t', ts)) h = inl refl

  begun-Atomic :
      {R : Type 0} (P : R → T → Type 0) (n : Turn × List Turn) (e : E) (body : Tx T E R) (t : T)
      → ((ts : List Turn) → Ensures P (body (t, ts)))
      → Atomic P t (begun n e body t)
  begun-Atomic P (works, ts) e body t h = closed-Atomic P e t (body (t, ts)) (h ts)
  begun-Atomic P (breaks, ts) e body t h = inl refl
  begun-Atomic P (loses, ts) e body t h = inl refl

  pub in_tx-Atomic :
      {R : Type 0} (P : R → T → Type 0) (e : E) (body : Tx T E R) (pg : Pg T)
      → ((ts : List Turn) → Ensures P (body (pg.tables, ts)))
      → Atomic P pg.tables (in_tx e body pg)
  unfolding in_tx
  in_tx-Atomic P e body pg h = begun-Atomic P (next pg.turns) e body pg.tables h

-- A single statement: without an error it was done, and with one it was done or not.
abbrev pub Done : {T : Type 0} → Option T → T → Bool × Pg T → Type 0
Done o t (true, pg) = o ≡ some pg.tables
Done o t (false, pg) = (pg.tables ≡ t) ⊎ (o ≡ some pg.tables)

module _ {T : Type 0} where
  Done-change :
      (t' t : T) (r : Bool × Pg T) → Done (some t') t r → (r.1.tables ≡ t) ⊎ (r.1.tables ≡ t')
  Done-change t' t (true, pg) h = inr (cc h)
  Done-change t' t (false, pg) (inl h) = inl h
  Done-change t' t (false, pg) (inr h) = inr (cc h)

  executed-Done : (n : Turn × List Turn) (o : Option T) (t : T) → Done o t (executed n o t)
  executed-Done (works, ts) (some t') t = refl
  executed-Done (works, ts) none t = inl refl
  executed-Done (breaks, ts) o t = inl refl
  executed-Done (loses, ts) (some t') t = inr refl
  executed-Done (loses, ts) none t = inl refl

  pub exec-Done : (f : T → Option T) (pg : Pg T) → Done (f pg.tables) pg.tables (exec f pg)
  unfolding exec
  exec-Done f pg = executed-Done (next pg.turns) (f pg.tables) pg.tables

  answered-keeps :
      {A : Type 0} (n : Turn × List Turn) (a : A) (t : T) → (answered n a t).1.tables ≡ t
  answered-keeps (works, ts) a t = refl
  answered-keeps (breaks, ts) a t = refl
  answered-keeps (loses, ts) a t = refl

  pub query-keeps : {A : Type 0} (f : T → A) (pg : Pg T) → (query f pg).1.tables ≡ pg.tables
  unfolding query
  query-keeps f pg = answered-keeps (next pg.turns) (f pg.tables) pg.tables

  answered-is :
      {A : Type 0} (n : Turn × List Turn) (a : A) (t : T)
      → ((answered n a t).0 ≡ none) ⊎ ((answered n a t).0 ≡ some a)
  answered-is (works, ts) a t = inr refl
  answered-is (breaks, ts) a t = inl refl
  answered-is (loses, ts) a t = inl refl

  pub query-is :
      {A : Type 0} (f : T → A) (pg : Pg T)
      → ((query f pg).0 ≡ none) ⊎ ((query f pg).0 ≡ some (f pg.tables))
  unfolding query
  query-is f pg = answered-is (next pg.turns) (f pg.tables) pg.tables

  -- A statement that no constraint refuses.
  pub exec-change :
      (f : T → T) (pg : Pg T)
      → ((exec (λ t. some (f t)) pg).1.tables ≡ pg.tables)
        ⊎ ((exec (λ t. some (f t)) pg).1.tables ≡ f pg.tables)
  exec-change f pg = Done-change (f pg.tables) pg.tables _ (exec-Done (λ t. some (f t)) pg)
