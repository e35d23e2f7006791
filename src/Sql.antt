-- ===== src/Sql.antt =====
-- apps/api/internal/store/store.go: the access to PostgreSQL. A table is the list of its rows, and a
-- statement of the code is a function on the tables. Each statement, BEGIN and COMMIT takes the next of
-- a list of turns, which says whether the server or the line to it fails. A transaction is one step: no
-- other call comes between its statements.
pub mod Atomic
mod Samples
pub mod Tables
pub mod Progress
pub mod Checkout
pub mod Users
use cledyu.Base.{Bool, true, false, List, [], ◌∷◌, Option, none, some}

-- `loses` is a statement that takes effect and whose answer gets lost.
pub data Turn : Type 0 where
  works breaks loses : Turn

pub data Result (E A : Type 0) : Type 0 where
  ok : A → Result E A
  err : E → Result E A

-- Where the list is over, everything works.
pub record Pg (T : Type 0) : Type 0 where
  pub tables : T
  pub turns : List Turn

abbrev pub next : List Turn → Turn × List Turn
next [] = (works, [])
next (t ∷ ts) = (t, ts)

abbrev pub at : {T : Type 0} → T → List Turn → Pg T
at t ts = record { tables = t; turns = ts }

-- What is done inside of a transaction, on the tables as it sees them.
abbrev pub Tx : Type 0 → Type 0 → Type 0 → Type 0
Tx T E A = T × List Turn → Result E A × (T × List Turn)

abbrev pub bind :
    {T E A B : Type 0}
    → Result E A × (T × List Turn)
    → (A → Tx T E B)
    → Result E B × (T × List Turn)
bind (ok a, s) k = k a s
bind (err e, s) k = (err e, s)

infixl 5 ◌>>=◌ ◌>>◌
abbrev pub ◌>>=◌ : {T E A B : Type 0} → Tx T E A → (A → Tx T E B) → Tx T E B
◌>>=◌ m k s = bind (m s) k

abbrev pub ◌>>◌ : {T E B : Type 0} → Tx T E (Unit {0}) → Tx T E B → Tx T E B
m >> k = m >>= λ u. k

abbrev pub give : {T E A : Type 0} → A → Tx T E A
give a s = (ok a, s)

abbrev pub fail : {T E A : Type 0} → E → Tx T E A
fail e s = (err e, s)

abbrev pub turned :
    {T E A : Type 0} → Turn × List Turn → E → A × T → T → Result E A × (T × List Turn)
turned (works, ts) e (a, t') t = (ok a, (t', ts))
turned (breaks, ts) e r t = (err e, (t, ts))
turned (loses, ts) e r t = (err e, (t, ts))

-- One statement of a transaction, and the error that the code makes of its failure.
unfoldable pub stmt : {T E A : Type 0} → E → (T → A × T) → Tx T E A
stmt e f (t, ts) = turned (next ts) e (f t) t

abbrev pub committed : {T E R : Type 0} → Turn × List Turn → E → R → T → T → Result E R × Pg T
committed (works, ts) e r t' t = (ok r, at t' ts)
committed (breaks, ts) e r t' t = (err e, at t ts)
committed (loses, ts) e r t' t = (err e, at t' ts)

-- An error of the body leaves it by the deferred ROLLBACK.
abbrev pub closed : {T E R : Type 0} → E → T → Result E R × (T × List Turn) → Result E R × Pg T
closed e t (ok r, (t', ts)) = committed (next ts) e r t' t
closed e t (err e', (t', ts)) = (err e', at t ts)

abbrev pub begun : {T E R : Type 0} → Turn × List Turn → E → Tx T E R → T → Result E R × Pg T
begun (works, ts) e body t = closed e t (body (t, ts))
begun (breaks, ts) e body t = (err e, at t ts)
begun (loses, ts) e body t = (err e, at t ts)

-- BEGIN, the body and COMMIT; `e` stands for a failure of the first and the last.
unfoldable pub in_tx : {T E R : Type 0} → E → Tx T E R → Pg T → Result E R × Pg T
in_tx e body pg = begun (next pg.turns) e body pg.tables

abbrev pub executed : {T : Type 0} → Turn × List Turn → Option T → T → Bool × Pg T
executed (works, ts) (some t') t = (true, at t' ts)
executed (works, ts) none t = (false, at t ts)
executed (breaks, ts) o t = (false, at t ts)
executed (loses, ts) (some t') t = (false, at t' ts)
executed (loses, ts) none t = (false, at t ts)

-- A statement of its own, which a constraint may refuse: whether the call succeeded.
unfoldable pub exec : {T : Type 0} → (T → Option T) → Pg T → Bool × Pg T
exec f pg = executed (next pg.turns) (f pg.tables) pg.tables

abbrev pub answered : {T A : Type 0} → Turn × List Turn → A → T → Option A × Pg T
answered (works, ts) a t = (some a, at t ts)
answered (breaks, ts) a t = (none, at t ts)
answered (loses, ts) a t = (none, at t ts)

-- A query of its own: none for an error.
unfoldable pub query : {T A : Type 0} → (T → A) → Pg T → Option A × Pg T
query f pg = answered (next pg.turns) (f pg.tables) pg.tables
