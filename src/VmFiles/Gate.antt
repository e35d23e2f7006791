-- ===== src/VmFiles/Gate.antt =====
-- Whose file is shown, and what the VM is asked for.
use cledyu.Base.{
  List, ◌∷◌, str_eq_iff, ℕ, suc, String, ◌≡◌, refl, sym, ap, ◌∙◌, ◌⊎◌, inl, inr, Bool, true, false,
  not, [], Option, none, some, arith, str_eq, ltb, subst, Bool-cases, Option-cases,
}
use cledyu.Engine.{Text}
use cledyu.Session.{
  Session, Provider, ProviderKind, kubevirt, ec2, Status, provisioning, ready, failed, not_found,
  other,
}
use cledyu.Session as Sessions
use cledyu.Lifecycle.{deny_if_not_owner}
use cledyu.VmFiles.{
  Entry, lists_file, Snapshot, FileErr, busy, file_not_listed, failure, Result, ok, err, Runner,
  Lib, State, text_eq, in_slot, parsed, list_files, outcome, read_listed, read_file,
  snapshot_contains_file,
}
use cledyu.VmFiles.Confined.{Bounded, parse_snapshot-Bounded, text_eq-eq}
use cledyu.VmFiles.Handlers.{
  FilePreview, Reply, fails, shown, is_ready, is_kubevirt, matching_preview, preview_reply,
  file_error, Handled, gated, ready_file_session, preview_of, preview, preview_session_file,
}

module _ {W : Type 0} (b : Lib) (r : Runner W) (max_concurrent : ℕ) where
  -- What runs in a slot holds one more than before, and leaves it so.
  in_slot-slots :
      {A : Type 0} (f : State W → Result A × State W) (s : State W)
      → ((q : State W) → (f q).1.0 ≡ q.0)
      → (in_slot b r max_concurrent f s).1.0 ≡ s.0
  in_slot-slots f (n, w) h = elim (Bool-cases (ltb n max_concurrent)) [
    | inl e ↦ rw e (omega (arith, h (suc n, w)))
    | inr e ↦ rw e refl
  ]

  parsed-slots : (n : ℕ) (a : Option Text × W) → (parsed b r max_concurrent n a).1.0 ≡ n
  parsed-slots n (none, w) = refl
  parsed-slots n (some raw, w) = refl

  outcome-slots : (n : ℕ) (a : Option Text × W) → (outcome b r max_concurrent n a).1.0 ≡ n
  outcome-slots n (none, w) = refl
  outcome-slots n (some raw, w) = refl

  list_files-slots : (id : String) (s : State W) → (list_files b r max_concurrent id s).1.0 ≡ s.0
  unfolding list_files
  list_files-slots id s = elim (Bool-cases (str_eq id "")) [
    | inl e ↦ rw e refl
    | inr e ↦ rw e (
        in_slot-slots (λ q. parsed b r max_concurrent q.0 (r.run id q.1)) s
          (λ q. parsed-slots q.0 (r.run id q.1)))
  ]

  -- The answer of a listing comes through ParseSnapshot.
  slot-Bounded :
      (f : State W → Result Snapshot × State W) (s : State W)
      → ((q : State W) → Bounded b (f q).0)
      → Bounded b (in_slot b r max_concurrent f s).0
  slot-Bounded f (n, w) h = elim (Bool-cases (ltb n max_concurrent)) [
    | inl e ↦ rw e (h (suc n, w))
    | inr e ↦ rw e tt
  ]

  parsed-Bounded : (n : ℕ) (a : Option Text × W) → Bounded b (parsed b r max_concurrent n a).0
  parsed-Bounded n (none, w) = tt
  parsed-Bounded n (some raw, w) = parse_snapshot-Bounded b raw

  list_files-Bounded :
      (id : String) (s : State W) → Bounded b (list_files b r max_concurrent id s).0
  unfolding list_files
  list_files-Bounded id s = elim (Bool-cases (str_eq id "")) [
    | inl e ↦ rw e tt
    | inr e ↦ rw e (
        slot-Bounded (λ q. parsed b r max_concurrent q.0 (r.run id q.1)) s
          (λ q. parsed-Bounded q.0 (r.run id q.1)))
  ]

  -- One of the entries is a file with that very path.
  abbrev pub HasFile : Text → List Entry → Type 0
  HasFile p [] = ⊥
  HasFile p (e ∷ l) = ((e.path ≡ p) × (e.type ≡ "file")) ⊎ HasFile p l

  lists_file-HasFile :
      (p : Text) (l : List Entry) → lists_file b r max_concurrent p l ≡ true → HasFile p l
  lists_file-HasFile p [] h = absurd (cc h)
  lists_file-HasFile p (e ∷ l) h = elim (Bool-cases (text_eq e.path p)) [
    | inr a ↦ inr (lists_file-HasFile p l (rw a at h))
    | inl a ↦ elim (Bool-cases (str_eq e.type "file")) [
      | inl t ↦ inl (text_eq-eq e.path p a, (str_eq_iff e.type "file").0 t)
      | inr t ↦ inr (lists_file-HasFile p l (rw (a, t) at h))
    ]
  ]

  contains-HasFile :
      (x : Snapshot) (p : Text)
      → snapshot_contains_file b r max_concurrent x p ≡ true
      → HasFile p x.items
  unfolding snapshot_contains_file
  contains-HasFile x p h = lists_file-HasFile p x.items h

  -- The accepted listing has the path as a file.
  abbrev pub Listed : String → Text → State W → Type 0
  Listed id p s =
      (x : Snapshot) × ((list_files b r max_concurrent id s).0 ≡ ok x)
      × Bounded b (ok x)
      × HasFile p x.items

  -- What a read may do: leave the slots as they are, and read, or return a file, only if it is listed.
  abbrev Reads : String → Text → State W → Result Text × State W → Type 0
  Reads id p s o =
      (o.1.0 ≡ s.0)
      × ((((o.1.1 ≡ s.1) ⊎ (o.1.1 ≡ (list_files b r max_concurrent id s).1.1))
            × ((raw : Text) → ¬ (o.0 ≡ ok raw)))
          ⊎ Listed id p s)

  read_listed-Reads :
      (reader : String → Text → W → Option Text × W) (id : String) (p : Text) (s : State W)
      (o : Result Snapshot × State W)
      → list_files b r max_concurrent id s ≡ o
      → Reads id p s (read_listed b r max_concurrent reader id p o)
  read_listed-Reads reader id p s (err e, t) h = (
    ap (λ q. q.1.0) (sym h) ∙ list_files-slots id s,
    inl (inr (ap (λ q. q.1.1) (sym h)), λ raw e2. absurd (cc e2)),
  )
  read_listed-Reads reader id p s (ok x, t) h =
      let kept : t.0 ≡ s.0 = ap (λ q. q.1.0) (sym h) ∙ list_files-slots id s in
      elim (Bool-cases (snapshot_contains_file b r max_concurrent x p)) [
        | inl e ↦ rw e (
          in_slot-slots (λ q. outcome b r max_concurrent q.0 (reader id p q.1)) t
                (λ q. outcome-slots q.0 (reader id p q.1))
              ∙ kept,
          inr (
            x,
            ap (λ q. q.0) h,
            subst (Bounded b) (ap (λ q. q.0) h) (list_files-Bounded id s),
            contains-HasFile x p e,
          ),
        )
        | inr e ↦ rw e (kept, inl (inr (ap (λ q. q.1.1) (sym h)), λ raw e2. absurd (cc e2)))
      ]

  read_file-Reads :
      (id : String) (p : Text) (s : State W) → Reads id p s (read_file b r max_concurrent id p s)
  unfolding read_file
  read_file-Reads id p s = elim (Option-cases r.read) [
    | inl e ↦ rw e (refl, inl (inl refl, λ raw e2. absurd (cc e2)))
    | inr (reader, e) ↦
        rw e (read_listed-Reads reader id p s (list_files b r max_concurrent id s) refl)
  ]

  module _ {V : Type 0} (decode : Text → Option FilePreview) (sessions : Option (Provider V))
      (files : Bool) where
    -- The session that the provider knows by the id, let through by the owner check, on KubeVirt and ready.
    abbrev pub Granted : String → String → V → Session → Type 0
    Granted uid id v x =
        (q : Provider V) × (sessions ≡ some q)
        × (files ≡ true)
        × ((q.get id v).0 ≡ Sessions.ok x)
        × (deny_if_not_owner uid x.user_id ≡ false)
        × (x.provider ≡ kubevirt)
        × (x.status ≡ ready)

    kubevirt_of : (k : ProviderKind) → not (is_kubevirt k) ≡ false → k ≡ kubevirt
    kubevirt_of kubevirt h = refl
    kubevirt_of ec2 h = absurd (cc h)

    ready_of : (k : Status) → not (is_ready k) ≡ false → k ≡ ready
    ready_of ready h = refl
    ready_of provisioning h = absurd (cc h)
    ready_of failed h = absurd (cc h)

    -- What the gate lets happen: an error, with the service left alone, or what runs behind it.
    gated-elim :
        (P : Handled V W → Type 0) (q : Provider V) (uid id : String) (v : V) (s : State W)
        (k : Session → V → State W → Handled V W) (o : Sessions.Result Session × V)
        → sessions ≡ some q
        → files ≡ true
        → q.get id v ≡ o
        → ((n : ℕ) (v2 : V) → P (fails n, (v2, s)))
        → ((x : Session) (v2 : V) → Granted uid id v x → P (k x v2 s))
        → P (gated uid o s k)
    gated-elim P q uid id v s k (Sessions.err not_found, v2) hs hf h stops runs = stops 404 v2
    gated-elim P q uid id v s k (Sessions.err (other e), v2) hs hf h stops runs = stops 500 v2
    gated-elim P q uid id v s k (Sessions.ok x, v2) hs hf h stops runs =
        elim (Bool-cases (deny_if_not_owner uid x.user_id)) [
          | inl d ↦ rw d (stops 404 v2)
          | inr d ↦ rw d (elim (Bool-cases (not (is_kubevirt x.provider))) [
            | inl e ↦ rw e (stops 409 v2)
            | inr e ↦ rw e (elim (Bool-cases (not (is_ready x.status))) [
              | inl f ↦ rw f (stops 409 v2)
              | inr f ↦ rw f (
                  runs x v2
                    (q, hs, hf, ap (λ a. a.0) h, d, kubevirt_of x.provider e, ready_of x.status f))
            ])
          ])
        ]

    ready-elim :
        (P : Handled V W → Type 0) (uid id : String) (v : V) (s : State W)
        (k : Session → V → State W → Handled V W)
        → ((n : ℕ) (v2 : V) → P (fails n, (v2, s)))
        → ((x : Session) (v2 : V) → Granted uid id v x → P (k x v2 s))
        → P (ready_file_session sessions files uid id (v, s) k)
    unfolding ready_file_session
    ready-elim P uid id v s k stops runs = elim (Option-cases sessions) [
      | inl e ↦ rw e (stops 503 v)
      | inr (q, e) ↦ elim (Bool-cases files) [
        | inr f ↦ rw (e, f) (stops 503 v)
        | inl f ↦ rw (e, f) (gated-elim P q uid id v s k (q.get id v) e f refl stops runs)
      ]
    ]

    abbrev Fails : Reply → Type 0
    Fails a = (n : ℕ) × (a ≡ fails n)

    -- What a preview does behind the gate: the VM is asked for the file only if it is listed.
    abbrev pub Served : String → Text → State W → Handled V W → Type 0
    Served id p s o =
        (o.1.1.0 ≡ s.0)
        × ((((o.1.1.1 ≡ s.1) ⊎ (o.1.1.1 ≡ (list_files b r max_concurrent id s).1.1)) × Fails o.0)
            ⊎ (Listed id p s × ((a : FilePreview) → o.0 ≡ shown a → a.path ≡ p)))

    shown-eq : (w a : FilePreview) → shown w ≡ shown a → w ≡ a
    shown-eq w a h = cc h

    reply-path :
        (p : Text) (o : Option FilePreview) (a : FilePreview)
        → preview_reply (matching_preview p o) ≡ shown a
        → a.path ≡ p
    reply-path p none a h = absurd (cc h)
    reply-path p (some w) a h = elim (Bool-cases (text_eq w.path [])) [
      | inl e ↦ absurd (cc (rw e at h))
      | inr e ↦ elim (Bool-cases (text_eq w.path p)) [
        | inl f ↦
            let same : w ≡ a = shown-eq w a (rw (e, f) at h) in
            ap (λ (x : FilePreview). x.path) (sym same) ∙ text_eq-eq w.path p f
        | inr f ↦ absurd (cc (rw (e, f) at h))
      ]
    ]

    file_error-Fails : (e : FileErr) → Fails (file_error e)
    file_error-Fails busy = (429, refl)
    file_error-Fails file_not_listed = (404, refl)
    file_error-Fails failure = (502, refl)

    preview_of-Served :
        (id : String) (p : Text) (s : State W) (v : V) (o : Result Text × State W)
        → Reads id p s o
        → Served id p s (preview_of decode p v o)
    preview_of-Served id p s v (err e, t) (kept, inl (w, none_)) =
        (kept, inl (w, file_error-Fails e))
    preview_of-Served id p s v (err e, t) (kept, inr l) =
        (kept, inr (l, λ a h. absurd (cc (sym (file_error-Fails e).1 ∙ h))))
    preview_of-Served id p s v (ok raw, t) (kept, inl (w, none_)) = absurd (none_ raw refl)
    preview_of-Served id p s v (ok raw, t) (kept, inr l) =
        (kept, inr (l, reply-path p (decode raw)))

    -- An answer to a request for a preview is either an error, with no slot taken and the VM not spoken to;
    -- or the session is one that the owner check does not turn down, on KubeVirt and ready, and the slots
    -- are given back. Then the VM has been asked for the file only if the accepted listing, which stays
    -- below the lab's home, has that very path as a file; where it has not, there is an error, and at most
    -- the listing was run. A preview that is shown is of the path asked for.
    pub preview_session_file-Served :
        (uid id : String) (p : Text) (v : V) (s : State W)
        → let o = preview_session_file b r max_concurrent decode sessions files uid id p (v, s) in
          ((o.1.1 ≡ s) × Fails o.0) ⊎ ((x : Session) × Granted uid id v x × Served x.id p s o)
    unfolding preview_session_file
    preview_session_file-Served uid id p v s =
        ready-elim
          (λ o.
            ((o.1.1 ≡ s) × Fails o.0) ⊎ ((x : Session) × Granted uid id v x × Served x.id p s o))
          uid id v s (preview b r max_concurrent decode sessions files p)
          (λ n v2. inl (refl, (n, refl)))
          (λ x v2 g. elim (Bool-cases (text_eq p [])) [
            | inl e ↦ rw e (inl (refl, (400, refl)))
            | inr e ↦ rw e (
                inr (
                  x,
                  g,
                  preview_of-Served x.id p s v2 (read_file b r max_concurrent x.id p s)
                      (read_file-Reads x.id p s),
                ))
          ])
