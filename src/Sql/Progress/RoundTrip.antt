-- ===== src/Sql/Progress/RoundTrip.antt =====
-- SaveProgress and LoadProgress: what is saved is loaded.
use cledyu.Base.{
  ℕ, String, ◌≡◌, refl, sym, ap, subst, ◌∙◌, ◌⊎◌, inl, inr, false, List, [], ◌∷◌, map, Option, none,
  some, lookup-insert, str_eq, str_eq_refl, find, Option-cases,
}
use cledyu.Progress.{CheckOutcome}
use cledyu.Sql.{Turn, Result, ok, Pg, at, query}
use cledyu.Sql.Atomic.{Ensures, Ensures-map, Atomic, stmt-Ensures, in_tx-Atomic}
use cledyu.Sql.Tables.{Tables, Header, StepRow}
use cledyu.Sql.Tables.Rows.{merged, find-upsert_self, find-upsert_other}
use cledyu.Sql.Progress.{
  StepProgress, SessionProgress, Json, has_header, header_of, new_header, touched, steps_of,
  put_header, put_step, put_row, column, to_row, row_with, with_column, save_step, save_steps,
  save_progress, from_column, from_row, with_checks, scanned, from_rows, with_steps, read_header,
  load_progress,
}
use cledyu.Sql.Progress.Steps.{puts, Ascending, ids, puts-new, puts-old, ids-SameIds}

-- encoding/json reads what it has written, which is never empty.
pub record Reads (j : Json) : Type 0 where
  pub not_empty : (l : List CheckOutcome) (b : String) → j.marshal l ≡ some b → str_eq b "" ≡ false
  pub back : (l : List CheckOutcome) (b : String) → j.marshal l ≡ some b → j.unmarshal b ≡ some l

module _ (j : Json) (rd : Reads j) where
  column-back :
      (l : List CheckOutcome) (c : Option String) → column j l ≡ some c → from_column j c ≡ some l
  column-back [] none h = refl
  column-back [] (some b) h = cc h
  column-back (x ∷ l) c h = elim (Option-cases (j.marshal (x ∷ l))) [
    | inl e ↦ cc (rw (e, column) at h)
    | inr (b, e) ↦
        let c_is : c ≡ some b = cc (rw (e, column) at h) in
        rw c_is (rw (rd.not_empty (x ∷ l) b e) (rd.back (x ∷ l) b e))
  ]

  to_row-with :
      (s : StepProgress) (r : StepRow)
      → to_row j s ≡ some r
      → (c : Option String) × (column j s.checks ≡ some c) × (r ≡ row_with s c)
  to_row-with s r h = elim (Option-cases (column j s.checks)) [
    | inl e ↦ cc (rw (e, with_column) at h)
    | inr (c, e) ↦ (c, e, cc (rw (e, with_column) at h))
  ]

  row-back : (s : StepProgress) (r : StepRow) → to_row j s ≡ some r → from_row j r ≡ some s
  row-back s r h =
      let (c, e, r_is) = to_row-with s r h in
      rw r_is (rw (column-back s.checks c e, with_checks) refl)

  -- The rows are those that the steps are written as.
  abbrev Encodes : List StepProgress → List StepRow → Type 0
  Encodes [] [] = Unit
  Encodes [] (r ∷ rows) = ⊥
  Encodes (s ∷ l) [] = ⊥
  Encodes (s ∷ l) (r ∷ rows) = (to_row j s ≡ some r) × Encodes l rows

  rows-back :
      (l : List StepProgress) (rows : List StepRow) → Encodes l rows → from_rows j rows ≡ some l
  unfolding from_rows
  rows-back [] [] h = refl
  rows-back [] (r ∷ rows) h = absurd h
  rows-back (s ∷ l) [] h = absurd h
  rows-back (s ∷ l) (r ∷ rows) (h, hs) =
      rw (row-back s r h, scanned) (rw (rows-back l rows hs, scanned) refl)

  abbrev pub step_ids : List StepProgress → List ℕ
  step_ids l = map (λ s. s.step_id) l

  Encodes-ids :
      (l : List StepProgress) (rows : List StepRow) → Encodes l rows → ids rows ≡ step_ids l
  Encodes-ids [] [] h = refl
  Encodes-ids [] (r ∷ rows) h = absurd h
  Encodes-ids (s ∷ l) [] h = absurd h
  Encodes-ids (s ∷ l) (r ∷ rows) (h, hs) =
      let (c, e, r_is) = to_row-with s r h in cc (ap (λ q. q.step_id) r_is, Encodes-ids l rows hs)

  -- What the statements for the steps do.
  abbrev Stepped : String → List StepProgress → Tables → Unit {0} → Tables → Type 0
  Stepped id l t u t' =
      (rows : List StepRow) × Encodes l rows
      × (steps_of id t' ≡ puts rows (steps_of id t))
      × (t'.session_progress ≡ t.session_progress)
      × ((k : String) → str_eq id k ≡ false → steps_of k t' ≡ steps_of k t)

  put_row_self :
      (id : String) (r : StepRow) (t : Tables)
      → steps_of id (put_row id r t) ≡ put_step r (steps_of id t)
  put_row_self id r t =
      rw (lookup-insert id id (put_step r (steps_of id t)) t.session_steps)
        (rw (str_eq_refl id) refl)

  put_row_other :
      (id k : String) (r : StepRow) (t : Tables)
      → str_eq id k ≡ false
      → steps_of k (put_row id r t) ≡ steps_of k t
  put_row_other id k r t d =
      rw (lookup-insert id k (put_step r (steps_of id t)) t.session_steps) (rw d refl)

  save_steps-Stepped :
      (id : String) (l : List StepProgress) (t : Tables) (ts : List Turn)
      → Ensures (Stepped id l t) (save_steps j id l (t, ts))
  unfolding save_steps
  save_steps-Stepped id [] t ts = ([], tt, refl, refl, λ k d. refl)
  save_steps-Stepped id (s ∷ l) t ts = elim (Option-cases (to_row j s)) [
    | inl e ↦ rw (e, save_step) tt
    | inr (r, e) ↦
        rw (e, save_step)
          (stmt-Ensures (Stepped id (s ∷ l) t) tt _ _ t ts (λ ts'.
            Ensures-map (Stepped id l (put_row id r t)) (Stepped id (s ∷ l) t) _
              (λ u t' (rows, enc, mine, heads, others). (
                r ∷ rows,
                (e, enc),
                mine ∙ ap (puts rows) (put_row_self id r t),
                heads,
                λ k d. others k d ∙ put_row_other id k r t d,
              ))
              (save_steps-Stepped id l (put_row id r t) ts')))
  ]

  abbrev loaded_of :
      Option Header → Option (List StepProgress) → Result (Unit {0}) (Option SessionProgress)
  loaded_of none l = ok none
  loaded_of (some h) l = with_steps j h l

  load-quiet :
      (id : String) (t : Tables)
      → (load_progress j id (at t [])).0 ≡ loaded_of (header_of id t) (from_rows j (steps_of id t))
  unfolding load_progress query
  load-quiet id t = elim (Option-cases (header_of id t)) [
    | inl e ↦ rw (e, read_header) refl
    | inr (h, e) ↦ rw (e, read_header) refl
  ]

  abbrev pub HeaderFits : SessionProgress → Option Header → Type 0
  HeaderFits p none = Unit
  HeaderFits p (some h) = (h.lab_id ≡ p.lab_id) × (h.user_id ≡ p.user_id)

  -- What is stored of the session, if anything, is of the same lab, user and steps.
  abbrev pub Fits : String → SessionProgress → Tables → Type 0
  Fits id p t =
      HeaderFits p (header_of id t)
      × ((steps_of id t ≡ []) ⊎ (ids (steps_of id t) ≡ step_ids p.steps))

  -- The progress is loaded as it was saved, and that of the other sessions as before.
  abbrev pub Saved : String → SessionProgress → Tables → Unit {0} → Tables → Type 0
  Saved id p t u t' =
      ((load_progress j id (at t' [])).0 ≡ ok (some p))
      × ((k : String)
          → str_eq id k ≡ false
          → (load_progress j k (at t' [])).0 ≡ (load_progress j k (at t [])).0)

  abbrev HeaderIs : SessionProgress → Header → Type 0
  HeaderIs p h = (h.lab_id ≡ p.lab_id) × (h.user_id ≡ p.user_id) × (h.current_step ≡ p.current_step)

  merged-HeaderIs :
      (id : String) (p : SessionProgress) (db_now : ℕ) (o : Option Header)
      → HeaderFits p o
      → HeaderIs p (merged (new_header id p db_now) (touched p db_now) o)
  merged-HeaderIs id p db_now none f = (refl, refl, refl)
  merged-HeaderIs id p db_now (some h) f = (f.0, f.1, refl)

  loaded-HeaderIs :
      (p : SessionProgress) (h : Header)
      → HeaderIs p h
      → loaded_of (some h) (some p.steps) ≡ ok (some p)
  loaded-HeaderIs p h (lab, user, step) = rw lab (rw user (rw step refl))

  header-after :
      (id : String) (p : SessionProgress) (db_now : ℕ) (t : Tables)
      → header_of id (put_header id p db_now t)
        ≡ some (merged (new_header id p db_now) (touched p db_now) (header_of id t))
  header-after id p db_now t =
      find-upsert_self (λ h. h.session_id) id (new_header id p db_now) (touched p db_now)
        t.session_progress refl (λ h q. q)

  steps-after :
      (id : String) (p : SessionProgress) (t : Tables) (rows : List StepRow)
      → Encodes p.steps rows
      → Ascending (step_ids p.steps)
      → (steps_of id t ≡ []) ⊎ (ids (steps_of id t) ≡ step_ids p.steps)
      → puts rows (steps_of id t) ≡ rows
  steps-after id p t rows enc a (inl e) =
      rw e (puts-new rows (subst Ascending (sym (Encodes-ids p.steps rows enc)) a))
  steps-after id p t rows enc a (inr e) =
      let same : ids rows ≡ step_ids p.steps = Encodes-ids p.steps rows enc in
      puts-old rows (steps_of id t) (subst Ascending (sym same) a)
        (ids-SameIds rows (steps_of id t) (e ∙ sym same))

  -- From what the statements do to what is loaded then.
  Stepped-Saved :
      (id : String) (p : SessionProgress) (db_now : ℕ) (t t' : Tables)
      → Ascending (step_ids p.steps)
      → Fits id p t
      → Stepped id p.steps (put_header id p db_now t) tt t'
      → Saved id p t tt t'
  Stepped-Saved id p db_now t t' a f (rows, enc, mine, heads, others) = (
    load-quiet id t'
        ∙ ap (λ l. loaded_of (find (has_header id) l) (from_rows j (steps_of id t'))) heads
        ∙ ap (λ l. loaded_of (header_of id (put_header id p db_now t)) (from_rows j l))
            (mine ∙ steps-after id p t rows enc a f.1)
        ∙ ap (λ l. loaded_of (header_of id (put_header id p db_now t)) l)
            (rows-back p.steps rows enc)
        ∙ ap (λ h. loaded_of h (some p.steps)) (header-after id p db_now t)
        ∙ loaded-HeaderIs p (merged (new_header id p db_now) (touched p db_now) (header_of id t))
            (merged-HeaderIs id p db_now (header_of id t) f.0),
    λ k d.
        load-quiet k t'
        ∙ ap (λ l. loaded_of (find (has_header k) l) (from_rows j (steps_of k t'))) heads
        ∙ ap (λ l. loaded_of (header_of k (put_header id p db_now t)) (from_rows j l)) (others k d)
        ∙ ap (λ h. loaded_of h (from_rows j (steps_of k t)))
            (find-upsert_other (λ h. h.session_id) id k (new_header id p db_now) (touched p db_now)
              t.session_progress refl (λ h q. q) d)
        ∙ sym (load-quiet k t),
  )

  -- On a JSON package that reads what it has written, for progress with its steps in the order of their
  -- IDs, where what is stored of the session, if anything, is of the same lab, user and steps. Whatever
  -- fails: a call without an error has saved what the next load of the session gives, which is the same
  -- progress, and leaves what the other sessions load; a call with an error has done that, or nothing.
  pub save-load :
      (id : String) (p : SessionProgress) (db_now : ℕ) (pg : Pg Tables)
      → Ascending (step_ids p.steps)
      → Fits id p pg.tables
      → Atomic (Saved id p pg.tables) pg.tables (save_progress j id p db_now pg)
  unfolding save_progress
  save-load id p db_now pg a f = in_tx-Atomic (Saved id p pg.tables) tt _ pg (λ ts.
      stmt-Ensures (Saved id p pg.tables) tt _ _ pg.tables ts (λ ts'.
        Ensures-map (Stepped id p.steps (put_header id p db_now pg.tables)) (Saved id p pg.tables) _
          (λ u t' h. Stepped-Saved id p db_now pg.tables t' a f h)
          (save_steps-Stepped id p.steps (put_header id p db_now pg.tables) ts')))
