-- ===== src/Sql/Tables/Rows.antt =====
-- What is found under a key after an UPDATE or an upsert.
use cledyu.Base.{
  String, ◌≡◌, refl, Bool, false, List, [], ◌∷◌, Option, none, some, arith, find, str_eq,
  str_eq_iff,
}
use cledyu.Sql.Tables.{update, upsert}

abbrev pub merged : {A : Type 0} → A → (A → A) → Option A → A
merged new f none = new
merged new f (some x) = f x

pub merged_same : {A : Type 0} (x : A) (o : Option A) → merged x (λ old. x) o ≡ x
merged_same x none = refl
merged_same x (some y) = refl

module _ {A : Type 0} (key : A → String) where
  abbrev pub keyed_by : String → A → Bool
  keyed_by k x = str_eq (key x) k

  abbrev pub changed : (A → A) → Option A → Option A
  changed f none = none
  changed f (some x) = some (f x)

  pub find-update_self :
      (k : String) (f : A → A) (l : List A)
      → ((x : A) → key (f x) ≡ key x)
      → find (keyed_by k) (update (keyed_by k) f l) ≡ changed f (find (keyed_by k) l)
  find-update_self k f [] h = refl
  find-update_self k f (x ∷ l) h = ground (arith, h x, find-update_self k f l h)

  pub find-update_other :
      (k j : String) (f : A → A) (l : List A)
      → ((x : A) → key (f x) ≡ key x)
      → str_eq k j ≡ false
      → find (keyed_by j) (update (keyed_by k) f l) ≡ find (keyed_by j) l
  find-update_other k j f [] h d = refl
  find-update_other k j f (x ∷ l) h d =
      ground (arith, h x, find-update_other k j f l h d, str_eq_iff (key x) k, str_eq_iff (key x) j)

  -- What an upsert leaves under its key, and that it does not touch another.
  pub find-upsert_self :
      (k : String) (new : A) (f : A → A) (l : List A)
      → key new ≡ k
      → ((x : A) → key x ≡ k → key (f x) ≡ k)
      → find (keyed_by k) (upsert (keyed_by k) new f l) ≡ some (merged new f (find (keyed_by k) l))
  unfolding upsert
  find-upsert_self k new f [] e h = ground (arith, str_eq_iff (key new) k)
  find-upsert_self k new f (x ∷ l) e h =
      ground
        (arith, h x, find-upsert_self k new f l e h, str_eq_iff (key x) k, str_eq_iff (key (f x)) k)

  pub find-upsert_other :
      (k j : String) (new : A) (f : A → A) (l : List A)
      → key new ≡ k
      → ((x : A) → key x ≡ k → key (f x) ≡ k)
      → str_eq k j ≡ false
      → find (keyed_by j) (upsert (keyed_by k) new f l) ≡ find (keyed_by j) l
  unfolding upsert
  find-upsert_other k j new f [] e h d = ground (arith, e)
  find-upsert_other k j new f (x ∷ l) e h d =
      ground (
        arith,
        h x,
        find-upsert_other k j new f l e h d,
        str_eq_iff (key x) k,
        str_eq_iff (key x) j,
      )
