-- ===== src/Leaderboard/Points.antt =====
-- rankEntries: what the entries of a user add up to.
use cledyu.Base.{
  ℕ, suc, ◌+◌, String, ◌≡◌, refl, inl, inr, List, [], ◌∷◌, arith, str_eq, str_eq_iff, if◌then◌else◌,
  Bool-cases,
}
use cledyu.Leaderboard.{
  Row, Entry, bump, fresh_entry, add_row, aggregate, before, place, sort, number, rank_entries,
}

-- the rows of a user, each counted by `gain`
abbrev pub gained : (Row → ℕ) → String → List Row → ℕ
gained gain uid [] = 0
gained gain uid (r ∷ rows) = (if str_eq r.row_user uid then gain r else 0) + gained gain uid rows

module _ (measure : Entry → ℕ) (uid : String) where
  -- the entries of a user, each counted by `measure`
  abbrev pub total : List Entry → ℕ
  total [] = 0
  total (e ∷ l) = (if str_eq e.user_id uid then measure e else 0) + total l

  total-place : (e : Entry) (l : List Entry) → total (place e l) ≡ total (e ∷ l)
  unfolding place
  total-place e [] = refl
  total-place e (f ∷ l) = elim (Bool-cases (before f e)) [
    | inl b ↦ rw b (omega (arith, total-place e l))
    | inr b ↦ rw b refl
  ]

  total-sort : (l : List Entry) → total (sort l) ≡ total l
  unfolding sort
  total-sort [] = refl
  total-sort (e ∷ l) = omega (arith, total-place e (sort l), total-sort l)

  module _ (unranked : (e : Entry) (i : ℕ) → measure (record e { rank = i }) ≡ measure e) where
    total-number : (i : ℕ) (l : List Entry) → total (number i l) ≡ total l
    unfolding number
    total-number i [] = refl
    total-number i (e ∷ l) = ground (arith, unranked e i, total-number (suc i) l)

    module _ (weight : String → ℕ) (gain : Row → ℕ)
        (bumped : (r : Row) (e : Entry) → measure (bump (weight r.lab_id) r e) ≡ measure e + gain r)
        (starts : (r : Row) → measure (fresh_entry r) ≡ 0) where
      total-add_row :
          (r : Row) (l : List Entry)
          → total (add_row weight r l) ≡ total l + (if str_eq r.row_user uid then gain r else 0)
      unfolding add_row
      total-add_row r [] = ground (arith, bumped r (fresh_entry r), starts r)
      total-add_row r (e ∷ l) = ground (
        arith,
        bumped r e,
        total-add_row r l,
        str_eq_iff e.user_id r.row_user,
        str_eq_iff e.user_id uid,
        str_eq_iff r.row_user uid,
      )

      total-aggregate :
          (rows : List Row) (l : List Entry)
          → total (aggregate weight rows l) ≡ total l + gained gain uid rows
      unfolding aggregate
      total-aggregate [] l = omega arith
      total-aggregate (r ∷ rows) l =
          omega (arith, total-aggregate rows (add_row weight r l), total-add_row r l)

      pub total-rank_entries :
          (order : List Entry → List Entry) (rows : List Row)
          → ((l : List Entry) → total (order l) ≡ total l)
          → total (rank_entries order weight rows) ≡ gained gain uid rows
      unfolding rank_entries
      total-rank_entries order rows same = omega (
        arith,
        total-number 1 (sort (order (aggregate weight rows []))),
        total-sort (order (aggregate weight rows [])),
        same (aggregate weight rows []),
        total-aggregate rows [],
      )

-- The ranking gives a user the weights of the labs of their rows, and counts each of these rows once,
-- if the order in which Go walks over the map keeps what the entries of a user add up to.
pub rank_entries-points :
    (order : List Entry → List Entry) (weight : String → ℕ) (rows : List Row) (uid : String)
    → ((measure : Entry → ℕ) (l : List Entry) → total measure uid (order l) ≡ total measure uid l)
    → (total (λ e. e.score) uid (rank_entries order weight rows)
        ≡ gained (λ r. weight r.lab_id) uid rows)
      × (total (λ e. e.labs_completed) uid (rank_entries order weight rows)
          ≡ gained (λ r. 1) uid rows)
rank_entries-points order weight rows uid same = (
  total-rank_entries (λ e. e.score) uid (λ e i. refl) weight (λ r. weight r.lab_id) (λ r e. refl)
      (λ r. refl) order rows (same (λ e. e.score)),
  total-rank_entries (λ e. e.labs_completed) uid (λ e i. refl) weight (λ r. 1) (λ r e. omega arith)
      (λ r. refl) order rows (same (λ e. e.labs_completed)),
)
