-- ===== src/Store/Samples.antt =====
-- A database in memory, and instances of the store's theorems.
use cledyu.Base.{
  arith, String, ◌≡◌, refl, inr, Bool, true, false, List, [], ◌∷◌, Option, GoMap, lookup, insert,
  erase, lookup-insert, lookup-erase, str_eq_refl,
}
use cledyu.Progress.{SessionSteps, ValidationResult, initial, all_passed}
use cledyu.Store.{to_store_progress, SessionProgress, Database, loaded}
use cledyu.Store.View.{Rows, view}
use cledyu.Store.Restart.{Shape, Saves, do_ops-restarted}
use cledyu.Store.Shapes.{validating-Suits, applying-Suits}
use cledyu.Store.Calls.{
  Op, puts, changes, takes, Reliable, restarted, do_ops, validating_change, applying_change,
}

abbrev pub Table : Type 0
Table = GoMap SessionProgress

abbrev pub memory_db : Database Table
memory_db = record {
  save = λ id p w. (true, insert id p w);
  load = λ id w. (loaded (lookup id w), w);
  delete = λ id w. (true, erase id w);
}

abbrev pub table_of : Table → String → Option SessionProgress
table_of w id = lookup id w

pub memory_db-Rows : Rows memory_db table_of
memory_db-Rows = record {
  load_answer = λ id w. inr refl;
  load_keeps = λ id j w. refl;
  save_others = λ id j p w h. rw (lookup-insert id j p w, h) refl;
  delete_row = λ id w h. rw (lookup-erase id id w, str_eq_refl id) refl;
  delete_others = λ id j w h. rw (lookup-erase id j w, h) refl;
}

pub memory_db-Reliable : Reliable memory_db
memory_db-Reliable = record { saves = λ id p w. refl; loads = λ id w e. cc; deletes = λ id w. refl }

abbrev pub two_steps : SessionSteps
two_steps = initial "lab" "u1" (1 ∷ 2 ∷ [])

abbrev is_complete : SessionSteps → (SessionSteps × Bool) × Bool
is_complete ss = ((ss, all_passed ss), false)

abbrev result : ValidationResult
result = record { session_id = "a1"; step_id = 1; passed = true; checks = [] }

abbrev ops : List Op
ops =
    puts "a1" two_steps
    ∷ puts "b2" two_steps
    ∷ changes "a1" (validating_change 0)
    ∷ changes "a1" (applying_change result)
    ∷ takes "b2"
    ∷ []

abbrev shape : String → Shape
shape id = record { lab = "lab"; user = "u1"; ids = 1 ∷ 2 ∷ [] }

memory_db-Saves : Saves memory_db table_of shape
memory_db-Saves id p h w f e = rw (lookup-insert id id p w, str_eq_refl id) refl

do_ops-restarted_example :
    view table_of (restarted (do_ops memory_db ops ([], []))) "a1"
    ≡ view table_of (do_ops memory_db ops ([], [])) "a1"
unfolding lookup to_store_progress initial
do_ops-restarted_example =
    do_ops-restarted memory_db table_of memory_db-Rows memory_db-Reliable shape memory_db-Saves ops
      [] "a1" (λ j. tt)
      (
        (refl, refl, refl, ((omega arith, tt), (tt, tt))),
        (
          (refl, refl, refl, ((omega arith, tt), (tt, tt))),
          (validating-Suits shape "a1" 0, (applying-Suits shape "a1" result, (tt, tt))),
        ),
      )
