-- ===== src/Sql/Progress/Steps.antt =====
-- The rows of a session's steps under one upsert after the other.
use cledyu.Base.{ℕ, ◌<◌, ◌≡◌, refl, sym, ap, ◌∙◌, List, [], ◌∷◌, ◌++◌, map, arith, All, All-append}
use mathlib.Core.List.{append_assoc, append-nil}
use cledyu.Sql.Tables.{StepRow}
use cledyu.Sql.Progress.{put_step}

abbrev pub puts : List StepRow → List StepRow → List StepRow
puts [] old = old
puts (r ∷ l) old = puts l (put_step r old)

-- Each number is below those behind it.
abbrev pub Ascending : List ℕ → Type 0
Ascending [] = Unit
Ascending (n ∷ l) = All (λ m. n < m) l × Ascending l

abbrev pub ids : List StepRow → List ℕ
ids l = map (λ r. r.step_id) l

abbrev Before : List StepRow → List ℕ → Type 0
Before done l = All (λ n. All (λ d. d.step_id < n) done) l

Before-append :
    (done : List StepRow) (r : StepRow) (l : List ℕ)
    → Before done l
    → All (λ m. r.step_id < m) l
    → Before (done ++ r ∷ []) l
Before-append done r [] b a = tt
Before-append done r (n ∷ l) (b, bs) (a, as') =
    (All-append (λ d. d.step_id < n) done (r ∷ []) b (a, tt), Before-append done r l bs as')

put-last :
    (done : List StepRow) (r : StepRow)
    → All (λ d. d.step_id < r.step_id) done
    → put_step r done ≡ done ++ r ∷ []
unfolding put_step
put-last [] r b = refl
put-last (d ∷ done) r (b, bs) = ground (arith, put-last done r bs)

put-same :
    (done : List StepRow) (r x : StepRow) (l : List StepRow)
    → All (λ d. d.step_id < r.step_id) done
    → x.step_id ≡ r.step_id
    → put_step r (done ++ x ∷ l) ≡ done ++ r ∷ l
unfolding put_step
put-same [] r x l b e = ground arith
put-same (d ∷ done) r x l (b, bs) e = ground (arith, put-same done r x l bs e)

puts-last :
    (l done : List StepRow) → Before done (ids l) → Ascending (ids l) → puts l done ≡ done ++ l
puts-last [] done b a = sym (append-nil done)
puts-last (r ∷ l) done (b, bs) (a, as') =
    ap (λ q. puts l q) (put-last done r b)
    ∙ puts-last l (done ++ r ∷ []) (Before-append done r (ids l) bs a) as'
    ∙ append_assoc done (r ∷ []) l

-- The rows that are there have the same IDs.
abbrev pub SameIds : List StepRow → List StepRow → Type 0
SameIds [] [] = Unit
SameIds [] (x ∷ old) = ⊥
SameIds (r ∷ l) [] = ⊥
SameIds (r ∷ l) (x ∷ old) = (x.step_id ≡ r.step_id) × SameIds l old

puts-over :
    (l old done : List StepRow)
    → Before done (ids l)
    → Ascending (ids l)
    → SameIds l old
    → puts l (done ++ old) ≡ done ++ l
puts-over [] [] done b a s = refl
puts-over [] (x ∷ old) done b a s = absurd s
puts-over (r ∷ l) [] done b a s = absurd s
puts-over (r ∷ l) (x ∷ old) done (b, bs) (a, as') (s, ss) =
    ap (λ q. puts l q) (put-same done r x old b s ∙ sym (append_assoc done (r ∷ []) old))
    ∙ puts-over l old (done ++ r ∷ []) (Before-append done r (ids l) bs a) as' ss
    ∙ append_assoc done (r ∷ []) l

Before-nil : (l : List ℕ) → Before [] l
Before-nil [] = tt
Before-nil (n ∷ l) = (tt, Before-nil l)

-- Steps in the order of their IDs, where there are none yet, or those of the same IDs.
pub puts-new : (l : List StepRow) → Ascending (ids l) → puts l [] ≡ l
puts-new l a = puts-last l [] (Before-nil (ids l)) a

pub puts-old : (l old : List StepRow) → Ascending (ids l) → SameIds l old → puts l old ≡ l
puts-old l old a s = puts-over l old [] (Before-nil (ids l)) a s

pub ids-SameIds : (l old : List StepRow) → ids old ≡ ids l → SameIds l old
ids-SameIds [] [] h = tt
ids-SameIds [] (x ∷ old) h = absurd (cc h)
ids-SameIds (r ∷ l) [] h = absurd (cc h)
ids-SameIds (r ∷ l) (x ∷ old) h = (cc h, ids-SameIds l old (cc h))
