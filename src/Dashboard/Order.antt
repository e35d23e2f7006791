-- ===== src/Dashboard/Order.antt =====
-- buildDashboard: the order of the labs.
use cledyu.Base.{
  ℕ, ◌<◌, String, ◌≡◌, refl, ◌∙◌, ◌⊎◌, inl, inr, Bool, true, false, List, [], ◌∷◌, arith, codes,
  ◌==◌, count, All, Bool-cases,
}
use cledyu.Dashboard.{text_before, place_id, sort_ids}

-- The first text is the second one or stands in front of it in a dictionary.
abbrev pub Precedes : List ℕ → List ℕ → Type 0
Precedes [] t = Unit
Precedes (c ∷ s) [] = ⊥
Precedes (c ∷ s) (d ∷ t) = (c < d) ⊎ ((c ≡ d) × Precedes s t)

abbrev pub Ascending : List String → Type 0
Ascending [] = Unit
Ascending (x ∷ l) = All (λ y. Precedes (codes x) (codes y)) l × Ascending l

Precedes-trans : (s t u : List ℕ) → Precedes s t → Precedes t u → Precedes s u
Precedes-trans [] t u h k = tt
Precedes-trans (c ∷ s) [] u h k = absurd h
Precedes-trans (c ∷ s) (d ∷ t) [] h k = absurd k
Precedes-trans (c ∷ s) (d ∷ t) (e ∷ u) (inl p) (inl q) = inl (omega (arith, p, q))
Precedes-trans (c ∷ s) (d ∷ t) (e ∷ u) (inl p) (inr (q, k)) = inl (omega (arith, p, q))
Precedes-trans (c ∷ s) (d ∷ t) (e ∷ u) (inr (p, h)) (inl q) = inl (omega (arith, p, q))
Precedes-trans (c ∷ s) (d ∷ t) (e ∷ u) (inr (p, h)) (inr (q, k)) =
    inr (p ∙ q, Precedes-trans s t u h k)

before-Precedes : (s t : List ℕ) → text_before s t ≡ true → Precedes s t
before-Precedes [] t h = tt
before-Precedes (c ∷ s) [] h = absurd (cc h)
before-Precedes (c ∷ s) (d ∷ t) h = elim (Bool-cases (c == d)) [
  | inl e ↦ inr (ground (arith, e), before-Precedes s t (rw e at h))
  | inr e ↦ inl (ground (arith, rw e at h))
]

after-Precedes : (s t : List ℕ) → text_before t s ≡ false → Precedes s t
after-Precedes [] t h = tt
after-Precedes (c ∷ s) [] h = absurd (cc h)
after-Precedes (c ∷ s) (d ∷ t) h = elim (Bool-cases (d == c)) [
  | inl e ↦ inr (ground (arith, e), after-Precedes s t (rw e at h))
  | inr e ↦ inl (ground (arith, e, rw e at h))
]

All-trans :
    (x y : String) (l : List String)
    → Precedes (codes x) (codes y)
    → All (λ z. Precedes (codes y) (codes z)) l
    → All (λ z. Precedes (codes x) (codes z)) l
All-trans x y [] h k = tt
All-trans x y (z ∷ l) h (k, ks) =
    (Precedes-trans (codes x) (codes y) (codes z) h k, All-trans x y l h ks)

place_id-All :
    (P : String → Type 0) (x : String) (l : List String) → P x → All P l → All P (place_id x l)
unfolding place_id
place_id-All P x [] h hs = (h, tt)
place_id-All P x (y ∷ l) h (g, gs) = elim (Bool-cases (text_before (codes y) (codes x))) [
  | inl b ↦ rw b (g, place_id-All P x l h gs)
  | inr b ↦ rw b (h, (g, gs))
]

place_id-Ascending : (x : String) (l : List String) → Ascending l → Ascending (place_id x l)
unfolding place_id
place_id-Ascending x [] h = (tt, tt)
place_id-Ascending x (y ∷ l) (h, hs) = elim (Bool-cases (text_before (codes y) (codes x))) [
  | inl b ↦ rw b (
    place_id-All (λ z. Precedes (codes y) (codes z)) x l (before-Precedes (codes y) (codes x) b) h,
    place_id-Ascending x l hs,
  )
  | inr b ↦
      let p : Precedes (codes x) (codes y) = after-Precedes (codes x) (codes y) b in
      rw b ((p, All-trans x y l p h), (h, hs))
]

pub sort_ids-Ascending : (l : List String) → Ascending (sort_ids l)
unfolding sort_ids
sort_ids-Ascending [] = tt
sort_ids-Ascending (x ∷ l) = place_id-Ascending x (sort_ids l) (sort_ids-Ascending l)

count-place_id :
    (P : String → Bool) (x : String) (l : List String) → count P (place_id x l) ≡ count P (x ∷ l)
unfolding place_id
count-place_id P x [] = refl
count-place_id P x (y ∷ l) = elim (Bool-cases (text_before (codes y) (codes x))) [
  | inl b ↦ rw b (ground (arith, count-place_id P x l))
  | inr b ↦ rw b refl
]

pub count-sort_ids : (P : String → Bool) (l : List String) → count P (sort_ids l) ≡ count P l
unfolding sort_ids
count-sort_ids P [] = refl
count-sort_ids P (x ∷ l) = ground (arith, count-place_id P x (sort_ids l), count-sort_ids P l)
