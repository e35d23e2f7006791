-- ===== src/Base/Keyed.antt =====
-- Lists of things with a key: which are active, what switching one off does to that, and lists in
-- which no two have one key.
use Prim.Native.Nat.{suc, ◌≤◌}
use Prim.Native.String.{String}
use mathlib.Core.Path.{◌≡◌, refl}
use mathlib.Core.Logic.{inl, inr}
use mathlib.Core.Bool.{Bool, true, false}
use mathlib.Core.Option.{Option, none, some}
use mathlib.Core.List.{List, [], ◌∷◌, map}
use native.Mathlib.Omega.{arith}
use cledyu.Base.Tests.{str_eq, str_eq_iff, str_eq_refl, Bool-cases}
use cledyu.Base.Lists.{find, keep, count, All}

module _ {A : Type 0} (key : A → String) (act : A → Bool) where
  abbrev pub keyed : String → A → Bool
  keyed k x = str_eq (key x) k

  abbrev pub shows : Option A → Bool
  shows (some x) = act x
  shows none = false

  -- The first of the key is active.
  abbrev pub alive : String → List A → Bool
  alive k l = shows (find (keyed k) l)

  abbrev pub NoTwins : List A → Type 0
  NoTwins [] = Unit
  NoTwins (x ∷ l) = All (λ y. str_eq (key y) (key x) ≡ false) l × NoTwins l

  -- `f` switches off what has the key, and leaves the rest and the keys alone.
  pub record SwitchesOff (f : A → A) (k : String) : Type 0 where
    pub off : (x : A) → keyed k x ≡ true → act (f x) ≡ false
    pub rest : (x : A) → keyed k x ≡ false → f x ≡ x
    pub same_key : (x : A) → key (f x) ≡ key x

  module _ (f : A → A) (k : String) (o : SwitchesOff f k) where
    pub count-off_le : (l : List A) → count act (map f l) ≤ count act l
    count-off_le [] = omega arith
    count-off_le (x ∷ l) = elim (Bool-cases (keyed k x)) [
      | inl e ↦ ground (arith, o.off x e, count-off_le l)
      | inr e ↦ rw (o.rest x e) (ground (arith, count-off_le l))
    ]

    pub count-off : (l : List A) → alive k l ≡ true → suc (count act (map f l)) ≤ count act l
    count-off [] h = ground arith
    count-off (x ∷ l) h = elim (Bool-cases (keyed k x)) [
      | inl e ↦ ground (arith, o.off x e, count-off_le l)
      | inr e ↦ rw (o.rest x e) (ground (arith, count-off l))
    ]

    pub alive-off : (j : String) (l : List A) → str_eq k j ≡ false → alive j (map f l) ≡ alive j l
    alive-off j [] h = refl
    alive-off j (x ∷ l) h = elim (Bool-cases (keyed k x)) [
      | inl e ↦ ground (
        arith,
        o.same_key x,
        alive-off j l h,
        str_eq_iff (key x) k,
        str_eq_iff (key x) j,
        str_eq_refl j,
      )
      | inr e ↦ rw (o.rest x e) (ground (arith, alive-off j l h))
    ]

  found_behind :
      (x : A) (l r : List A)
      → All (λ y. str_eq (key y) (key x) ≡ false) r
      → All (λ y. find (keyed (key y)) l ≡ some y) r
      → All (λ y. find (keyed (key y)) (x ∷ l) ≡ some y) r
  found_behind x l [] d h = tt
  found_behind x l (y ∷ r) (d, ds) (h, hs) = (
    ground (arith, str_eq_iff (key x) (key y), str_eq_iff (key y) (key x)),
    found_behind x l r ds hs,
  )

  pub All-found : (l : List A) → NoTwins l → All (λ y. find (keyed (key y)) l ≡ some y) l
  All-found [] d = tt
  All-found (x ∷ l) (d, ds) = (rw (str_eq_refl (key x)) refl, found_behind x l l d (All-found l ds))

pub keep-All :
    {A : Type 0} (P : A → Type 0) (p : A → Bool) (l : List A) → All P l → All P (keep p l)
keep-All P p [] h = tt
keep-All P p (x ∷ l) (h, hs) = elim (Bool-cases (p x)) [
  | inl e ↦ rw e (h, keep-All P p l hs)
  | inr e ↦ rw e (keep-All P p l hs)
]

pub keep-NoTwins :
    {A : Type 0} (key : A → String) (act p : A → Bool) (l : List A)
    → NoTwins key act l
    → NoTwins key act (keep p l)
keep-NoTwins key act p [] d = tt
keep-NoTwins key act p (x ∷ l) (d, ds) = elim (Bool-cases (p x)) [
  | inl e ↦ rw e (keep-All (λ y. str_eq (key y) (key x) ≡ false) p l d, keep-NoTwins key act p l ds)
  | inr e ↦ rw e (keep-NoTwins key act p l ds)
]
