-- ===== src/Store/Restart.antt =====
-- progress.go: a restart of the API, which empties the cache, loses no progress as long as the
-- database does not fail.
use cledyu.Base.{
  ℕ, ◌<◌, true, All, map, String, ◌≡◌, refl, sym, subst, ◌∙◌, ap, ◌⊎◌, inl, inr, false, List, [],
  ◌∷◌, Option, none, some, lookup, insert, lookup-insert, lookup-erase, str_eq, str_eq_iff,
  if◌then◌else◌, Option-cases, Bool-cases,
}
use cledyu.Progress.{SessionSteps}
use cledyu.Store.{
  SessionProgress, StepProgress, Database, Loaded, load_failed, loaded, StoreState, to_step,
  from_step, to_store_progress, from_store_progress, keep_loaded, fetch, call_with, with_session,
  put, take, load_taken,
}
use cledyu.Store.View.{Rows, view, from-to_store_progress, map-id}
use cledyu.Store.Calls.{
  Change, Op, changes, puts, takes, Reliable, restarted, as_callback, do_op, do_ops,
}

to_step-from_step : (p : StepProgress) → to_step (from_step p) ≡ p
to_step-from_step p =
    ap (λ l. record p { checks = l }) (map-id (λ c. c) (λ c. c) (λ c. refl) p.checks)

to-from_store_progress : (p : SessionProgress) → to_store_progress (from_store_progress p) ≡ p
unfolding from_store_progress to_store_progress
to-from_store_progress p =
    ap (λ l. record p { steps = l }) (map-id from_step to_step to_step-from_step p.steps)

-- What does not change of a session: its lab, its user and the IDs of its steps.
pub record Shape : Type 0 where
  pub lab : String
  pub user : String
  pub ids : List ℕ

abbrev pub Ascending : List ℕ → Type 0
Ascending [] = Unit
Ascending (i ∷ l) = All (λ j. i < j) l × Ascending l

abbrev pub HasShape : Shape → SessionProgress → Type 0
HasShape sh p =
    (p.lab_id ≡ sh.lab)
    × (p.user_id ≡ sh.user)
    × (map (λ x. x.step_id) p.steps ≡ sh.ids)
    × Ascending sh.ids

-- Nothing is stored, or something of that shape.
abbrev pub Fits : Shape → Option SessionProgress → Type 0
Fits sh none = Unit
Fits sh (some p) = HasShape sh p

-- SaveProgress keeps the lab and the user of a row that is there, and LoadProgress gives the steps in the
-- order of their IDs, those of earlier saves too. So what is saved is loaded as it is only where it
-- has the shape of what was there, with ascending IDs.
abbrev pub Saves :
    {D : Type 0} → Database D → (D → String → Option SessionProgress) → (String → Shape) → Type 0
Saves {D} d table shape =
    (id : String) (p : SessionProgress)
    → HasShape (shape id) p
    → (w : D) → Fits (shape id) (table w id)
    → (d.save id p w).0 ≡ true
    → table (d.save id p w).1 id ≡ some p

-- A call writes only records of the session's shape.
abbrev pub Suits : (String → Shape) → Op → Type 0
Suits shape (changes id c) =
    (ss : SessionSteps)
    → HasShape (shape id) (to_store_progress ss)
    → HasShape (shape id) (to_store_progress (c.fn ss).0)
Suits shape (puts id ss) = HasShape (shape id) (to_store_progress ss)
Suits shape (takes id) = Unit {0}

module _ {D : Type 0} (d : Database D) (table : D → String → Option SessionProgress)
    (rows : Rows d table) (reliable : Reliable d) (shape : String → Shape)
    (saves : Saves d table shape) where
  -- All that is stored has its session's shape.
  abbrev pub Shaped : D → Type 0
  Shaped w = (j : String) → Fits (shape j) (table w j)

  saved-Shaped :
      (id : String) (p : SessionProgress) (w : D)
      → HasShape (shape id) p
      → Shaped w
      → Shaped (d.save id p w).1
  saved-Shaped id p w h f j = elim (Bool-cases (str_eq id j)) [
    | inl b ↦
        subst (λ k. Fits (shape k) (table (d.save id p w).1 k)) ((str_eq_iff id j).0 b)
          (subst (Fits (shape id)) (sym (saves id p h w (f id) (reliable.saves id p w))) h)
    | inr b ↦ subst (Fits (shape j)) (sym (rows.save_others id j p w b)) (f j)
  ]

  loaded-Shaped : (id : String) (w : D) → Shaped w → Shaped (d.load id w).1
  loaded-Shaped id w f j = subst (Fits (shape j)) (sym (rows.load_keeps id j w)) (f j)

  deleted-Shaped : (id : String) (w : D) → Shaped w → Shaped (d.delete id w).1
  deleted-Shaped id w f j = elim (Bool-cases (str_eq id j)) [
    | inl b ↦
        subst (λ k. Fits (shape k) (table (d.delete id w).1 k)) ((str_eq_iff id j).0 b)
          (subst (Fits (shape id)) (sym (rows.delete_row id w (reliable.deletes id w))) tt)
    | inr b ↦ subst (Fits (shape j)) (sym (rows.delete_others id j w b)) (f j)
  ]

  -- Every record of the cache is in the database as it is.
  abbrev pub Coherent : StoreState D → Type 0
  Coherent s =
      (j : String) (ss : SessionSteps)
      → lookup j s.0 ≡ some ss
      → table s.1 j ≡ some (to_store_progress ss)

  abbrev stored_of : Option SessionSteps → Option SessionProgress
  stored_of none = none
  stored_of (some x) = some (to_store_progress x)

  insert-Coherent :
      (id : String) (ss : SessionSteps) (s : StoreState D) (w : D)
      → Coherent s
      → table w id ≡ some (to_store_progress ss)
      → ((j : String) → str_eq id j ≡ false → table w j ≡ table s.1 j)
      → Coherent (insert id ss s.0, w)
  insert-Coherent id ss s w c row others j ss' e = elim (Bool-cases (str_eq id j)) [
    | inl b ↦
        subst (λ k. table w k ≡ some (to_store_progress ss')) ((str_eq_iff id j).0 b)
          (row ∙ ap (λ x. stored_of x) (rw b at found))
    | inr b ↦ others j b ∙ c j ss' (rw b at found)
  ]
    where
      found : (if str_eq id j then some ss else lookup j s.0) ≡ some ss'
      found = sym (lookup-insert id j ss s.0) ∙ e

  abbrev row_of : Loaded → Option SessionProgress
  row_of load_failed = none
  row_of (loaded o) = o

  abbrev Fetched : String → Option SessionSteps × StoreState D → Type 0
  Fetched id r =
      Coherent r.1
      × Shaped r.1.1
      × ((ss : SessionSteps) → r.0 ≡ some ss → table r.1.1 id ≡ some (to_store_progress ss))

  loaded-Fetched :
      (id : String) (s : StoreState D) (l : Loaded)
      → Coherent s
      → Shaped s.1
      → (l ≡ load_failed) ⊎ (l ≡ loaded (table s.1 id))
      → Fetched id (keep_loaded id l s)
  loaded-Fetched id s load_failed c f h = (c, f, λ ss e. cc)
  loaded-Fetched id s (loaded none) c f h = (c, f, λ ss e. cc)
  loaded-Fetched id s (loaded (some p)) c f (inl h) = cc
  loaded-Fetched id s (loaded (some p)) c f (inr h) =
      let row = sym (ap row_of h) ∙ ap (λ q. some q) (sym (to-from_store_progress p)) in
      (
        insert-Coherent id (from_store_progress p) s s.1 c row (λ j b. refl),
        f,
        λ ss e. row ∙ ap stored_of e,
      )

  fetch-Fetched :
      (id : String) (s : StoreState D) → Coherent s → Shaped s.1 → Fetched id (fetch (some d) id s)
  unfolding fetch
  fetch-Fetched id s c f = elim (Option-cases (lookup id s.0)) [
    | inr (ss, e) ↦ rw e (c, f, λ ss' h. c id ss' (e ∙ h))
    | inl e ↦ rw e (
        loaded-Fetched id (s.0, (d.load id s.1).1) (d.load id s.1).0
          (λ j ss h. rows.load_keeps id j s.1 ∙ c j ss h) (loaded-Shaped id s.1 f)
          (subst (λ o. ((d.load id s.1).0 ≡ load_failed) ⊎ ((d.load id s.1).0 ≡ loaded o))
            (sym (rows.load_keeps id id s.1)) (rows.load_answer id s.1)))
  ]

  abbrev Kept : StoreState D → Type 0
  Kept s = Coherent s × Shaped s.1

  call-Kept :
      (id : String) (c : Change) (r : Option SessionSteps × StoreState D)
      → Suits shape (changes id c)
      → Fetched id r
      → Kept (call_with (some d) id (as_callback d c) r.0 r.1).1
  call-Kept id c (none, s) u f = (f.0, f.1)
  call-Kept id c (some ss, s) u (co, sh, row) =
      let old : HasShape (shape id) (to_store_progress ss) =
        subst (Fits (shape id)) (row ss refl) (sh id) in
      let new : HasShape (shape id) (to_store_progress (c.fn ss).0) = u ss old in
      elim (Bool-cases (c.fn ss).1) [
        | inl b ↦ rw b (
          insert-Coherent id (c.fn ss).0 s (save (c.fn ss).0) co
              (saves id (to_store_progress (c.fn ss).0) new s.1 (sh id)
                (reliable.saves id (to_store_progress (c.fn ss).0) s.1))
              (λ j n. rows.save_others id j (to_store_progress (c.fn ss).0) s.1 n),
          saved-Shaped id (to_store_progress (c.fn ss).0) s.1 new sh,
        )
        | inr b ↦ rw b (
          insert-Coherent id (c.fn ss).0 s s.1 co
              (row ss refl ∙ ap (λ x. some (to_store_progress x)) (sym (c.honest ss b)))
              (λ j n. refl),
          sh,
        )
      ]
    where
      save : SessionSteps → D
      save ss = (d.save id (to_store_progress ss) s.1).1

  put-Kept :
      (id : String) (ss : SessionSteps) (s : StoreState D)
      → HasShape (shape id) (to_store_progress ss)
      → Kept s
      → Kept (put (some d) id ss s).1
  unfolding put
  put-Kept id ss s h (c, sh) =
      let p = to_store_progress ss in
      rw (reliable.saves id p s.1) (
        insert-Coherent id ss s (d.save id p s.1).1 c
            (saves id p h s.1 (sh id) (reliable.saves id p s.1))
            (λ j n. rows.save_others id j p s.1 n),
        saved-Shaped id p s.1 h sh,
      )

  load_taken-table :
      (id j : String) (o : Option SessionSteps) (w : D)
      → table (load_taken d id o w).1 j ≡ table w j
  load_taken-table id j (some ss) w = refl
  load_taken-table id j none w = rows.load_keeps id j w

  load_taken-Shaped :
      (id : String) (o : Option SessionSteps) (w : D) → Shaped w → Shaped (load_taken d id o w).1
  load_taken-Shaped id (some ss) w f = f
  load_taken-Shaped id none w f = loaded-Shaped id w f

  take-Shaped : (id : String) (s : StoreState D) → Shaped s.1 → Shaped (take (some d) id s).1.1
  unfolding take
  take-Shaped id s f = deleted-Shaped id _ (load_taken-Shaped id (lookup id s.0) s.1 f)

  take-Coherent : (id : String) (s : StoreState D) → Coherent s → Coherent (take (some d) id s).1
  unfolding take
  take-Coherent id s c j ss e =
      let w = (load_taken d id (lookup id s.0) s.1).1 in
      elim (Bool-cases (str_eq id j)) [
        | inl b ↦ cc (rw b at found)
        | inr b ↦
            rows.delete_others id j w b
            ∙ load_taken-table id j (lookup id s.0) s.1
            ∙ c j ss (rw b at found)
      ]
    where
      found : (if str_eq id j then none else lookup j s.0) ≡ some ss
      found = sym (lookup-erase id j s.0) ∙ e

  empty-Coherent : (w : D) → Coherent ([], w)
  unfolding lookup
  empty-Coherent w j ss e = cc

  do_ops-Kept :
      (os : List Op) (s : StoreState D) → All (Suits shape) os → Kept s → Kept (do_ops d os s)
  unfolding with_session
  do_ops-Kept [] s u k = k
  do_ops-Kept (changes id ch ∷ os) s (u, us) (c, f) =
      do_ops-Kept os (do_op d (changes id ch) s) us
        (call-Kept id ch (fetch (some d) id s) u (fetch-Fetched id s c f))
  do_ops-Kept (puts id ss ∷ os) s (u, us) k =
      do_ops-Kept os (do_op d (puts id ss) s) us (put-Kept id ss s u k)
  do_ops-Kept (takes id ∷ os) s (u, us) (c, f) =
      do_ops-Kept os (do_op d (takes id) s) us (take-Coherent id s c, take-Shaped id s f)

  -- With a database in which no call fails or touches another session, a load changes nothing and a
  -- deletion leaves nothing, and which gives back what was saved where it has the shape of what was stored
  -- (the lab, the user, and the same ascending step IDs); where all that is stored has its session's
  -- shape: after any calls of the
  -- store's methods on an empty cache, which write only records of their session's shape and whose
  -- callbacks report their changes, what is seen of every session is still seen when the cache is
  -- emptied.
  pub do_ops-restarted :
      (os : List Op) (w : D) (j : String)
      → Shaped w
      → All (Suits shape) os
      → view table (restarted (do_ops d os ([], w))) j ≡ view table (do_ops d os ([], w)) j
  unfolding view lookup
  do_ops-restarted os w j f u =
      let s = do_ops d os ([], w) in
      let c = (do_ops-Kept os ([], w) u (empty-Coherent w, f)).0 in
      elim (Option-cases (lookup j s.0)) [
        | inl e ↦ rw e refl
        | inr (ss, e) ↦ rw (e, c j ss e) (ap (λ x. some x) (from-to_store_progress ss))
      ]
