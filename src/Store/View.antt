-- ===== src/Store/View.antt =====
-- progress.go: what the store holds, for a reader who does not see the cache.
use cledyu.Base.{
  String, ◌≡◌, ◌≢◌, refl, sym, ◌∙◌, ap, ◌⊎◌, inl, inr, Bool, true, false, List, [], ◌∷◌, map,
  Option, none, some, arith, GoMap, lookup, insert, lookup-insert, str_eq, str_eq_iff,
  if◌then◌else◌, Option-cases, Bool-cases,
}
use cledyu.Progress.{StepState, SessionSteps}
use cledyu.Store.{
  SessionProgress, Database, load_failed, loaded, StoreState, to_step, from_step, to_store_progress,
  from_store_progress, load_on_miss, fetch, save_if, call_with, with_session,
}

-- What the code relies on in a database: `table` is what would be loaded of each session; a call that
-- fails changes at most what it names. What a save leaves of its own session is in Store.Restart.
pub record Rows {D : Type 0} (d : Database D) (table : D → String → Option SessionProgress)
    : Type 0 where
  pub load_answer :
      (id : String) (w : D)
      → ((d.load id w).0 ≡ load_failed) ⊎ ((d.load id w).0 ≡ loaded (table w id))
  pub load_keeps : (id j : String) (w : D) → table (d.load id w).1 j ≡ table w j
  pub save_others :
      (id j : String) (p : SessionProgress) (w : D)
      → str_eq id j ≡ false
      → table (d.save id p w).1 j ≡ table w j
  pub delete_row :
      (id : String) (w : D) → (d.delete id w).0 ≡ true → table (d.delete id w).1 id ≡ none
  pub delete_others :
      (id j : String) (w : D) → str_eq id j ≡ false → table (d.delete id w).1 j ≡ table w j

pub map-id :
    {A B : Type 0} (f : A → B) (g : B → A)
    → ((a : A) → g (f a) ≡ a)
    → (l : List A) → map g (map f l) ≡ l
map-id f g h [] = refl
map-id f g h (a ∷ l) = ground (arith, h a, map-id f g h l)

from_step-to_step : (s : StepState) → from_step (to_step s) ≡ s
from_step-to_step s =
    ap (λ l. record s { checks = l }) (map-id (λ c. c) (λ c. c) (λ c. refl) s.checks)

-- A record that is stored and loaded again is the same.
pub from-to_store_progress : (ss : SessionSteps) → from_store_progress (to_store_progress ss) ≡ ss
unfolding from_store_progress to_store_progress
from-to_store_progress ss =
    ap (λ l. record ss { steps = l }) (map-id to_step from_step from_step-to_step ss.steps)

abbrev pub stored : Option SessionProgress → Option SessionSteps
stored none = none
stored (some p) = some (from_store_progress p)

abbrev pub seen : Option SessionSteps → Option SessionProgress → Option SessionSteps
seen (some ss) p = some ss
seen none p = stored p

-- The record of a session: the cache's if there is one, or else the row's.
unfoldable pub view :
    {D : Type 0}
    → (D → String → Option SessionProgress)
    → StoreState D
    → String
    → Option SessionSteps
view table s j = seen (lookup j s.0) (table s.1 j)

-- A row that enters a cache without its session changes nothing that is seen.
seen-cached :
    (id j : String) (c : GoMap SessionSteps) (p : SessionProgress)
    (row : String → Option SessionProgress)
    → lookup id c ≡ none
    → row id ≡ some p
    → seen (if str_eq id j then some (from_store_progress p) else lookup j c) (row j)
      ≡ seen (lookup j c) (row j)
seen-cached id j c p row e t = elim (Bool-cases (str_eq id j)) [
  | inl b ↦ rw b (rw⁻¹ ((str_eq_iff id j).0 b) (rw (e, t) refl))
  | inr b ↦ rw b refl
]

-- What a callback captures of a record, if there is one, and what it leaves.
module _ {A : Type 0} (fn : SessionSteps → (SessionSteps × A) × Bool) where
  abbrev pub answer_of : Option SessionSteps → Option A
  answer_of none = none
  answer_of (some ss) = some (fn ss).0.1

  abbrev pub next_of : Option SessionSteps → Option SessionSteps
  next_of none = none
  next_of (some ss) = some (fn ss).0.0

module _ {D : Type 0} (d : Database D) (table : D → String → Option SessionProgress)
    (rows : Rows d table) where
  -- What `fetch` answers, and that it changes nothing that is seen.
  pub fetch-view :
      (id : String) (s : StoreState D)
      → (d.load id s.1).0 ≢ load_failed
      → ((fetch (some d) id s).0 ≡ view table s id)
        × ((j : String) → view table (fetch (some d) id s).1 j ≡ view table s j)
  unfolding fetch view
  fetch-view id s h = elim (Option-cases (lookup id s.0)) [
    | inr (ss, e) ↦ rw e (refl, λ j. refl)
    | inl e ↦ rw e (loaded_view (rows.load_answer id s.1) (Option-cases (table s.1 id)) e)
  ]
    where
      loaded_view :
          ((d.load id s.1).0 ≡ load_failed) ⊎ ((d.load id s.1).0 ≡ loaded (table s.1 id))
          → (table s.1 id ≡ none) ⊎ ((p : SessionProgress) × (table s.1 id ≡ some p))
          → lookup id s.0 ≡ none
          → ((load_on_miss (some d) id none s).0 ≡ stored (table s.1 id))
            × ((j : String)
                → seen
                    (lookup j (load_on_miss (some d) id none s).1.0)
                    (table (load_on_miss (some d) id none s).1.1 j)
                  ≡ seen (lookup j s.0) (table s.1 j))
      loaded_view (inl f) t e = elim (h f) [ ]
      loaded_view (inr l) (inl t) e =
          rw (l, t) (refl, λ j. ap (seen (lookup j s.0)) (rows.load_keeps id j s.1))
      loaded_view (inr l) (inr (p, t)) e =
          rw (l, t)
            (
              refl,
              λ j.
                  rw (lookup-insert id j (from_store_progress p) s.0, rows.load_keeps id j s.1)
                    (seen-cached id j s.0 p (table s.1) e t),
            )

  save_if-others :
      (b : Bool) (id j : String) (ss : SessionSteps) (w : D)
      → str_eq id j ≡ false
      → table (save_if b (some d) id ss w) j ≡ table w j
  save_if-others true id j ss w h = rows.save_others id j (to_store_progress ss) w h
  save_if-others false id j ss w h = refl

  -- What is seen once a session's record is replaced.
  replaced :
      (id j : String) (ss : SessionSteps) (s : StoreState D) (w : D)
      → (str_eq id j ≡ false → table w j ≡ table s.1 j)
      → view table (insert id ss s.0, w) j ≡ (if str_eq id j then some ss else view table s j)
  unfolding view
  replaced id j ss s w h = rw (lookup-insert id j ss s.0) (elim (Bool-cases (str_eq id j)) [
    | inl b ↦ rw b refl
    | inr b ↦ rw b (ap (seen (lookup j s.0)) (h b))
  ])

  module _ {A : Type 0} (fn : SessionSteps → (SessionSteps × A) × Bool) where
    call-view :
        (id : String) (o : Option SessionSteps) (s : StoreState D)
        → o ≡ view table s id
        → ((call_with (some d) id fn o s).0 ≡ answer_of fn o)
          × ((j : String)
              → view table (call_with (some d) id fn o s).1 j
                ≡ (if str_eq id j then next_of fn o else view table s j))
    call-view id none s e = (
      refl,
      λ j. elim (Bool-cases (str_eq id j)) [
        | inl b ↦ rw b (rw⁻¹ ((str_eq_iff id j).0 b) (sym e))
        | inr b ↦ rw b refl
      ],
    )
    call-view id (some ss) s e =
        let ((ss', a), dirty) = fn ss in
        (
          refl,
          λ j.
              replaced id j ss' s (save_if dirty (some d) id ss' s.1)
                (save_if-others dirty id j ss' s.1),
        )

    -- Whether the record was in the cache or only in the database, and whether or not it could be
    -- saved: if the database's row could be read, `withSession` hands the record that is seen to the
    -- callback, answers what the callback captured, or that there is no such session, and what is
    -- seen next is the callback's record for this session and nothing new for any other.
    pub with_session-view :
        (id : String) (s : StoreState D)
        → (d.load id s.1).0 ≢ load_failed
        → ((with_session (some d) id fn s).0 ≡ answer_of fn (view table s id))
          × ((j : String)
              → view table (with_session (some d) id fn s).1 j
                ≡ (if str_eq id j then next_of fn (view table s id) else view table s j))
    unfolding with_session
    with_session-view id s h =
        let (o, s1) = fetch (some d) id s in
        let (e, same) = fetch-view id s h in
        let (ans, nxt) = call-view id o s1 (e ∙ sym (same id)) in
        (ans ∙ ap (answer_of fn) e, λ j. nxt j ∙ if_both j (ap (next_of fn) e) (same j))
      where
        if_both :
            (j : String) {x x' y y' : Option SessionSteps}
            → x ≡ x'
            → y ≡ y'
            → (if str_eq id j then x else y) ≡ (if str_eq id j then x' else y')
        if_both j p q = rw (p, q) refl
