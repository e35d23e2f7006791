-- ===== src/Leaderboard/Ranking.antt =====
-- rankEntries: the order of the ranking, and that it counts every row once.
use cledyu.Base.{
  ℕ, suc, ◌<◌, ◌≤◌, ◌⊎◌, String, ◌≡◌, refl, ◌∙◌, inl, inr, true, false, List, [], ◌∷◌, arith, All,
  Bool-cases,
}
use cledyu.Leaderboard.{Row, Entry, aggregate, before, place, sort, number, rank_entries}

-- Nothing stands in front of what the comparison puts before it.
abbrev pub IsOrdered : List Entry → Type 0
IsOrdered [] = Unit
IsOrdered (e ∷ l) = All (λ f. before f e ≡ false) l × IsOrdered l

-- The first entry may stand in front of the second: it has a higher score, or the same one, and had its
-- last lab completed no later.
abbrev pub MayPrecede : Entry → Entry → Type 0
MayPrecede e f = (f.score < e.score) ⊎ ((f.score ≡ e.score) × (e.last_completed ≤ f.last_completed))

-- Each entry may precede all behind it, and the ranks count from `i`.
abbrev pub IsRanked : ℕ → List Entry → Type 0
IsRanked i [] = Unit
IsRanked i (e ∷ l) = (e.rank ≡ i) × All (MayPrecede e) l × IsRanked (suc i) l

before-MayPrecede : (e f : Entry) → before f e ≡ false → MayPrecede e f
unfolding before
before-MayPrecede e f h = ground (arith, h)

before_asym : (e f : Entry) → before f e ≡ true → before e f ≡ false
unfolding before
before_asym e f h = ground arith

before_trans : (e f g : Entry) → before g f ≡ false → before f e ≡ false → before g e ≡ false
unfolding before
before_trans e f g h k = ground arith

All-before_trans :
    (e f : Entry) (l : List Entry)
    → before f e ≡ false
    → All (λ g. before g f ≡ false) l
    → All (λ g. before g e ≡ false) l
All-before_trans e f [] k h = tt
All-before_trans e f (g ∷ l) k (h, hs) = (before_trans e f g h k, All-before_trans e f l k hs)

place-All :
    (e f : Entry) (l : List Entry)
    → before e f ≡ false
    → All (λ g. before g f ≡ false) l
    → All (λ g. before g f ≡ false) (place e l)
unfolding place
place-All e f [] k h = (k, tt)
place-All e f (g ∷ l) k (h, hs) = elim (Bool-cases (before g e)) [
  | inl b ↦ rw b (h, place-All e f l k hs)
  | inr b ↦ rw b (k, (h, hs))
]

place-IsOrdered : (e : Entry) (l : List Entry) → IsOrdered l → IsOrdered (place e l)
unfolding place
place-IsOrdered e [] h = (tt, tt)
place-IsOrdered e (f ∷ l) (h, hs) = elim (Bool-cases (before f e)) [
  | inl b ↦ rw b (place-All e f l (before_asym e f b) h, place-IsOrdered e l hs)
  | inr b ↦ rw b ((b, All-before_trans e f l b h), (h, hs))
]

sort-IsOrdered : (l : List Entry) → IsOrdered (sort l)
unfolding sort
sort-IsOrdered [] = tt
sort-IsOrdered (e ∷ l) = place-IsOrdered e (sort l) (sort-IsOrdered l)

before_rank :
    (e f : Entry) (i j : ℕ) → before (record f { rank = i }) (record e { rank = j }) ≡ before f e
unfolding before
before_rank e f i j = refl

number-All :
    (e : Entry) (i j : ℕ) (l : List Entry)
    → All (λ f. before f e ≡ false) l
    → All (MayPrecede (record e { rank = j })) (number i l)
unfolding number
number-All e i j [] h = tt
number-All e i j (f ∷ l) (h, hs) = (
  before-MayPrecede (record e { rank = j }) (record f { rank = i }) (before_rank e f i j ∙ h),
  number-All e (suc i) j l hs,
)

number-IsRanked : (i : ℕ) (l : List Entry) → IsOrdered l → IsRanked i (number i l)
unfolding number
number-IsRanked i [] h = tt
number-IsRanked i (e ∷ l) (h, hs) = (refl, number-All e (suc i) i l h, number-IsRanked (suc i) l hs)

-- Whatever the order in which Go walks over its map: the ranks count from 1, and of two entries the one in
-- front has the higher score, or the same score and a last completion that is no later.
pub rank_entries-IsRanked :
    (order : List Entry → List Entry) (weight : String → ℕ) (rows : List Row)
    → IsRanked 1 (rank_entries order weight rows)
unfolding rank_entries
rank_entries-IsRanked order weight rows =
    number-IsRanked 1 _ (sort-IsOrdered (order (aggregate weight rows [])))
