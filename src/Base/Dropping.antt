-- ===== src/Base/Dropping.antt =====
-- A walk over a list of keyed things that switches some of them off one by one: what a step may do to
-- the list, and what the steps before it leave for the rest of the walk.
use Prim.Native.Nat.{ℕ, ◌+◌, ◌≤◌}
use Prim.Native.String.{String}
use mathlib.Core.Path.{◌≡◌, refl, ap, ◌∙◌}
use mathlib.Core.Logic.{inl, inr}
use mathlib.Core.Bool.{Bool, true, false}
use mathlib.Core.Option.{some}
use mathlib.Core.List.{List, [], ◌∷◌, map}
use native.Mathlib.Omega.{arith}
use cledyu.Base.Tests.{str_eq, str_eq_iff, Bool-cases}
use cledyu.Base.Lists.{find, keep, count, All}
use cledyu.Base.Keyed.{keyed, shows, alive, SwitchesOff, count-off, alive-off}

-- one where a thing was switched off
abbrev pub tally : Bool → ℕ
tally true = 1
tally false = 0

module _ {A : Type 0} (key : A → String) (act : A → Bool) where
  -- What a step for the key `k` may do to the list.
  pub record Drops (k : String) (hit : Bool) (l l' : List A) : Type 0 where
    pub fewer : count act l' + tally hit ≤ count act l
    pub others : (j : String) → str_eq k j ≡ false → alive key act j l' ≡ alive key act j l

  pub Drops-refl : (k : String) (l : List A) → Drops k false l l
  Drops-refl k l = record { fewer = omega arith; others = λ j h. refl }

  pub Drops-trans :
      (k : String) (hit : Bool) (l l' l'' : List A)
      → Drops k false l l'
      → Drops k hit l' l''
      → Drops k hit l l''
  Drops-trans k hit l l' l'' a b = record {
    fewer = omega (arith, a.fewer, b.fewer);
    others = λ j h. b.others j h ∙ a.others j h;
  }

  pub off-Drops :
      (f : A → A) (k : String) (l : List A)
      → SwitchesOff key act f k
      → alive key act k l ≡ true
      → Drops k true l (map f l)
  off-Drops f k l o h = record {
    fewer = omega (arith, count-off key act f k o l h);
    others = λ j d. alive-off key act f k o j l d;
  }

  -- Those of a list for which `P` holds are active in another one.
  abbrev pub Ahead : (A → Type 0) → List A → List A → Type 0
  Ahead P r l = All (λ x. P x → alive key act (key x) l ≡ true) r

  pub Ahead-keeps :
      (P : A → Type 0) (k : String) (r l l' : List A)
      → All (λ x. str_eq (key x) k ≡ false) r
      → ((j : String) → str_eq k j ≡ false → alive key act j l' ≡ alive key act j l)
      → Ahead P r l
      → Ahead P r l'
  Ahead-keeps P k [] l l' d keeps h = tt
  Ahead-keeps P k (x ∷ r) l l' (d, ds) keeps (h, hs) = (
    λ e. keeps (key x) (ground (arith, str_eq_iff k (key x), str_eq_iff (key x) k)) ∙ h e,
    Ahead-keeps P k r l l' ds keeps hs,
  )

  pub keep-Ahead :
      (P : A → Type 0) (p : A → Bool) (l r : List A)
      → ((x : A) → p x ≡ true → P x → act x ≡ true)
      → All (λ x. find (keyed key act (key x)) l ≡ some x) r
      → Ahead P (keep p r) l
  keep-Ahead P p l [] a h = tt
  keep-Ahead P p l (x ∷ r) a (h, hs) = elim (Bool-cases (p x)) [
    | inl e ↦ rw e (λ u. ap (shows key act) h ∙ a x e u, keep-Ahead P p l r a hs)
    | inr e ↦ rw e (keep-Ahead P p l r a hs)
  ]
