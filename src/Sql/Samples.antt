-- ===== src/Sql/Samples.antt =====
-- Instances of the theorems on the database, with a JSON package for the outcomes of commands.
use Prim.Native.Char.{code}
use cledyu.Base.{
  ℕ, String, ◌≡◌, refl, ap, sym, ◌∙◌, inl, inr, Bool, true, false, ◌&&◌, List, [], ◌∷◌, Option,
  none, some, arith, str_eq, str_eq_iff, str_eq_refl, ◌==◌, if◌then◌else◌, codes, lookup,
  and-eq-true, Bool-cases,
}
use cledyu.Progress.{CheckOutcome}
use cledyu.Sql.{at, loses}
use cledyu.Sql.Atomic.{Atomic}
use cledyu.Sql.Tables.{Tables, User, Completion}
use cledyu.Sql.Progress.{StepProgress, SessionProgress, Json, save_progress}
use cledyu.Sql.Progress.RoundTrip.{Reads, Saved, save-load}
use cledyu.Sql.Users.{leaderboard_rows}
use cledyu.Sql.Users.Hidden.{Op, logs_in, sets_role, completes, do_ops, NotShown, ops-NotShown}

abbrev plain : CheckOutcome → Bool
plain c = str_eq c.type "command" && str_eq c.detail ""

abbrev command : Bool → CheckOutcome
command b = record { type = "command"; passed = b; detail = "" }

abbrev digit : Bool → Option String → Option String
digit b none = none
digit true (some s) = some (String.◌∷◌ "1" s)
digit false (some s) = some (String.◌∷◌ "0" s)

write : List CheckOutcome → Option String
write [] = some "."
write (c ∷ l) = let rest = write l in if plain c then digit c.passed rest else none

abbrev and_then : Bool → Option (List CheckOutcome) → Option (List CheckOutcome)
and_then b none = none
and_then b (some l) = some (command b ∷ l)

read : String → Option (List CheckOutcome)
read String.[] = none
read (String.◌∷◌ c s) = if code c == b'.' then some [] else and_then (code c == b'1') (read s)

digits : Json
digits = record { marshal = write; unmarshal = read }

filled : (t : String) (n : ℕ) (l : List ℕ) → codes t ≡ n ∷ l → str_eq t "" ≡ false
filled t n l h = elim (Bool-cases (str_eq t "")) [
  | inl e ↦ absurd (cc (h, ap codes ((str_eq_iff t "").0 e)))
  | inr e ↦ e
]

not_empty : (b : Bool) (s t : String) → digit b (some s) ≡ some t → str_eq t "" ≡ false
not_empty true s t h = filled t b'1' (codes s) (cc h)
not_empty false s t h = filled t b'0' (codes s) (cc h)

read-digit :
    (b : Bool) (s t : String) (l : List CheckOutcome)
    → digit b (some s) ≡ some t
    → read s ≡ some l
    → read t ≡ some (command b ∷ l)
unfolding read
read-digit true s t l h r = ground (arith, h, r)
read-digit false s t l h r = ground (arith, h, r)

plain-command : (c : CheckOutcome) → plain c ≡ true → c ≡ command c.passed
plain-command c h =
    let (t, d) = and-eq-true (str_eq c.type "command") (str_eq c.detail "") h in
    cc ((str_eq_iff c.type "command").0 t, (str_eq_iff c.detail "").0 d)

read-dot : read "." ≡ some []
unfolding read
read-dot = refl

module _ (c : CheckOutcome) (l : List CheckOutcome) (t : String) where
  written :
      (o : Option String) (b : Bool)
      → plain c ≡ b
      → ((s : String) → o ≡ some s → read s ≡ some l)
      → (if b then digit c.passed o else none) ≡ some t
      → (str_eq t "" ≡ false) × (read t ≡ some (c ∷ l))
  written none true p r h = absurd (no_digit c.passed h)
    where
      no_digit : (b : Bool) → digit b none ≡ some t → ⊥
      no_digit true e = cc e
      no_digit false e = cc e
  written (some s) true p r h = (
    not_empty c.passed s t h,
    read-digit c.passed s t l h (r s refl) ∙ ap (λ d. some (d ∷ l)) (sym (plain-command c p)),
  )
  written o false p r h = absurd (cc h)

write-read :
    (l : List CheckOutcome) (t : String)
    → write l ≡ some t
    → (str_eq t "" ≡ false) × (read t ≡ some l)
unfolding write
write-read [] t h = rw (← dot) (filled "." b'.' [] refl, read-dot)
  where
    dot : "." ≡ t
    dot = cc h
write-read (c ∷ l) t h = written c l t (write l) (plain c) refl (λ s e. (write-read l s e).1) h

digits-Reads : Reads digits
unfolding digits
digits-Reads = record {
  not_empty = λ l b h. (write-read l b h).0;
  back = λ l b h. (write-read l b h).1;
}

abbrev empty : Tables
empty = record {
  users = [];
  session_progress = [];
  session_steps = [];
  lab_completions = [];
  subscriptions = [];
  checkout_sessions = [];
}

abbrev step : ℕ → String → List CheckOutcome → StepProgress
step n status checks = record {
  step_id = n;
  status = status;
  attempts = 1;
  hint_level = 0;
  checks = checks;
}

abbrev progress : SessionProgress
progress = record {
  lab_id = "lab-1";
  user_id = "u1";
  current_step = 2;
  steps = step 1 "passed" (command true ∷ []) ∷ step 2 "active" [] ∷ [];
}

save-load_example :
    Atomic
      (Saved digits digits-Reads "s1" progress empty)
      empty
      (save_progress digits "s1" progress 5 (at empty (loses ∷ [])))
unfolding lookup
save-load_example =
    save-load digits digits-Reads "s1" progress 5 (at empty (loses ∷ []))
      ((omega arith, tt), (tt, tt)) (tt, inl refl)

abbrev u1 : User
u1 = record {
  id = "u1";
  email = "u1@x";
  name = "U";
  role = "student";
  created_at = 0;
  last_login_at = 0;
  leaderboard_hidden = true;
}

abbrev done : Completion
done = record { user_id = "u1"; lab_id = "lab-1"; session_id = "s1"; completed_at = 3 }

abbrev school : Tables
school = record empty { users = u1 ∷ []; lab_completions = done ∷ [] }

abbrev calls : List (Op × ℕ)
calls =
    (logs_in "u1" "u1@x" "New" "student", 7)
    ∷ (sets_role "u1" "admin", 8)
    ∷ (completes "u1" "lab-1" "s2", 9)
    ∷ []

ops-NotShown_example :
    NotShown "u1" (leaderboard_rows none (do_ops calls (at school (loses ∷ [])))).0
ops-NotShown_example =
    ops-NotShown "u1" calls (at school (loses ∷ [])) none (u1, rw (str_eq_refl "u1") refl, refl)
      (tt, (tt, (tt, tt)))
