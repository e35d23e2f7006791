-- ===== src/Kubevirt/Once.antt =====
-- watcher.go, syncBootStatus: a boot result is recorded once.
use cledyu.Base.{
  ℕ, String, ◌≡◌, ◌≢◌, refl, sym, ap, subst, ◌∙◌, ◌⊎◌, inl, inr, Bool, true, false, ◌&&◌, List, map,
  Option, none, some, GoMap, arith, str_eq, str_eq_iff, str_eq_refl, if◌then◌else◌, insert,
  lookup-insert, find, Bool-cases,
}
use cledyu.Session.{Err}
use cledyu.Kubevirt.Cluster.{Fault, absent, fault, Namespace, Kube}
use cledyu.Kubevirt.Boot.{
  State, Recorded, ann_ready, ann_recorded, text_at, is_failure, write_annotation, write_error,
  sync_phase, sync_boot_status, wrap, label_managed_by, managed_by_value, record_failure,
  record_success,
}
use cledyu.Kubevirt.Laws.{named, annotated, ReadSpec, UpdateSpec, Serves}
use cledyu.Kubevirt.Synced.{Answer-cases}
use cledyu.Kubevirt.Looks.{find-annotated, find-named, mapped}

abbrev pub unready : Namespace → Bool
unready n = str_eq (text_at ann_ready n.annotations) ""

abbrev pub unrecorded : Namespace → Bool
unrecorded n = unready n && str_eq (text_at ann_recorded n.annotations) ""

-- Nothing is left to record of the namespace for this phase.
abbrev pub Settled : String → Namespace → Type 0
Settled phase n = (if str_eq phase "Running" then unready n else unrecorded n) ≡ false

abbrev labelled : Namespace → Bool
labelled n = str_eq (text_at label_managed_by n.labels) managed_by_value

-- A success settles every phase, a failure every failure.
abbrev pub Covers : String → String → Type 0
Covers p q =
    (str_eq p "Running" ≡ true)
    ⊎ ((str_eq p "Running" ≡ false) × (is_failure p ≡ true) × (str_eq q "Running" ≡ false))

Some-inj : (m n : Namespace) → some m ≡ some n → m ≡ n
Some-inj m n h = ground arith

text_at-inserted : (j v : String) (m : GoMap String) → text_at j (insert j v m) ≡ v
text_at-inserted j v m = ground (arith, lookup-insert j j v m, str_eq_refl j)

apart : (v : String) → v ≢ "" → str_eq v "" ≡ false
apart v h = elim (Bool-cases (str_eq v "")) [
  | inl e ↦ absurd (h ((str_eq_iff v "").0 e))
  | inr e ↦ e
]

and-false : (b c : Bool) → c ≡ false → (b && c) ≡ false
and-false b c h = ground arith

true_apart : str_eq "true" "" ≡ false
unfolding str_eq
true_apart = refl

error-none : (what : String) (e : Option Fault) → write_error what e ≡ none → e ≡ none
error-none what none h = refl
error-none what (some f) h = ground arith

module _ {W : Type 0} (k : Kube W) (stored : W → List Namespace) (sv : Serves k stored)
    (dated : (t : ℕ) → k.format_time t ≢ "") where
  Settled-quiet :
      (p q : String) (n : Namespace) (s : State W)
      → Covers p q
      → Settled p n
      → (sync_phase k q n s).1 ≡ s
  unfolding sync_phase
  Settled-quiet p q n s (inl r) h =
      let h' : unready n ≡ false =
        subst (λ b. (if b then unready n else unrecorded n) ≡ false) r h in
      ground arith
  Settled-quiet p q n s (inr (r, f, d)) h =
      let h' : unrecorded n ≡ false =
        subst (λ b. (if b then unready n else unrecorded n) ≡ false) r h in
      ground arith

  -- What a call leaves behind: whatever namespace of the name is found is not the platform's, or is
  -- settled.
  abbrev Done : String → String → W → Type 0
  Done p ns w =
      (n : Namespace) → find (named ns) (stored w) ≡ some n → (labelled n ≡ false) ⊎ Settled p n

  Done-quiet :
      (p q ns : String) (s : State W)
      → Covers p q
      → Done p ns s.cluster
      → (sync_boot_status k ns q s).1 ≡ s
  unfolding sync_boot_status
  Done-quiet p q ns s c h = elim (Answer-cases (k.get_namespace ns s.cluster)) [
    | inl (n, e) ↦
        let found : find (named ns) (stored s.cluster) ≡ some n =
          subst (ReadSpec (find (named ns) (stored s.cluster))) e (sv.get_answer ns s.cluster) in
        elim (h n found) [
          | inl u ↦ rw (e, sync_boot_status, u) refl
          | inr d ↦ rw (e, sync_boot_status) (ground (arith, Settled-quiet p q n s c d))
        ]
    | inr (absent f, e) ↦ rw (e, sync_boot_status) refl
    | inr (fault f, e) ↦ rw (e, sync_boot_status) refl
  ]

  ready-Settled :
      (p : String) (t : ℕ) (n : Namespace)
      → str_eq p "Running" ≡ true
      → Settled p (record n { annotations = insert ann_ready (k.format_time t) n.annotations })
  ready-Settled p t n r =
      let n' : Namespace = record n {
        annotations = insert ann_ready (k.format_time t) n.annotations;
      } in
      subst (λ b. (if b then unready n' else unrecorded n') ≡ false) (sym r)
        (subst (λ x. str_eq x "" ≡ false)
          (sym (text_at-inserted ann_ready (k.format_time t) n.annotations))
          (apart (k.format_time t) (dated t)))

  recorded-Settled :
      (p : String) (n : Namespace)
      → str_eq p "Running" ≡ false
      → Settled p (record n { annotations = insert ann_recorded "true" n.annotations })
  recorded-Settled p n r =
      let n' : Namespace = record n { annotations = insert ann_recorded "true" n.annotations } in
      subst (λ b. (if b then unready n' else unrecorded n') ≡ false) (sym r)
        (and-false (unready n') _ (
          subst (λ x. str_eq x "" ≡ false)
            (sym (text_at-inserted ann_recorded "true" n.annotations)) true_apart))

  written-Done :
      (what key v p ns : String) (rec : W → List Recorded → List Recorded) (n : Namespace)
      (s : State W)
      → find (named ns) (stored s.cluster) ≡ some n
      → Settled p (record n { annotations = insert key v n.annotations })
      → (write_annotation k what key v rec n s).0 ≡ none
      → Done p ns (write_annotation k what key v rec n s).1.cluster
  unfolding write_annotation
  written-Done what key v p ns rec n s h d e m f =
      let a : GoMap String = insert key v n.annotations in
      let n' : Namespace = record n { annotations = a } in
      let u : Option Fault × W = k.update_namespace n' s.cluster in
      let eff : stored u.1 ≡ map (annotated ns a) (stored s.cluster) =
        subst (UpdateSpec ns a (stored s.cluster) (stored u.1)) (error-none what u.0 e)
          (sv.update_effect ns n a s.cluster h) in
      let now : annotated ns a n ≡ n' = rw (find-named ns n _ h) refl in
      let same : some m ≡ some n' =
        sym f
        ∙ ap (find (named ns)) eff
        ∙ find-annotated ns ns a (stored s.cluster)
        ∙ ap (mapped (annotated ns a)) h
        ∙ ap some now in
      inr (subst (Settled p) (sym (Some-inj m n' same)) d)

  kept-Done :
      (p ns : String) (n : Namespace) (w : W)
      → find (named ns) (stored w) ≡ some n
      → Settled p n
      → Done p ns w
  kept-Done p ns n w h d m f = inr (subst (Settled p) (Some-inj n m (sym h ∙ f)) d)

  abbrev Leaves : String → String → Option Err × State W → Type 0
  Leaves p ns r = r.0 ≡ none → Done p ns r.1.cluster

  to-Leaves :
      (p ns : String) (r r' : Option Err × State W) → r ≡ r' → Leaves p ns r' → Leaves p ns r
  to-Leaves p ns r r' e = subst (Leaves p ns) (sym e)

  success-Leaves :
      (p ns : String) (n : Namespace) (s : State W)
      → str_eq p "Running" ≡ true
      → find (named ns) (stored s.cluster) ≡ some n
      → Leaves p ns (sync_phase k p n s)
  unfolding sync_phase
  success-Leaves p ns n s r h = elim (Bool-cases (unready n)) [
    | inl u ↦
        to-Leaves p ns (sync_phase k p n s)
          (write_annotation k "update ready-at annotation" ann_ready
            (k.format_time (k.now s.cluster)) (λ w. record_success k n (k.now s.cluster)) n s)
          (rw (r, u, sync_phase) refl)
          (written-Done "update ready-at annotation" ann_ready (k.format_time (k.now s.cluster)) p
            ns (λ w. record_success k n (k.now s.cluster)) n s h
            (ready-Settled p (k.now s.cluster) n r))
    | inr u ↦
        to-Leaves p ns (sync_phase k p n s) (none, s) (rw (r, u, sync_phase) refl)
          (λ e.
            kept-Done p ns n s.cluster h
              (subst (λ b. (if b then unready n else unrecorded n) ≡ false) (sym r) u))
  ]

  failure-Leaves :
      (p ns : String) (n : Namespace) (s : State W)
      → str_eq p "Running" ≡ false
      → is_failure p ≡ true
      → find (named ns) (stored s.cluster) ≡ some n
      → Leaves p ns (sync_phase k p n s)
  unfolding sync_phase
  failure-Leaves p ns n s r f h = elim (Bool-cases (unrecorded n)) [
    | inl u ↦
        to-Leaves p ns (sync_phase k p n s)
          (write_annotation k "update boot-result-recorded annotation" ann_recorded "true"
            (record_failure k p n) n s)
          (rw (r, f, u, sync_phase) refl)
          (written-Done "update boot-result-recorded annotation" ann_recorded "true" p ns
            (record_failure k p n) n s h (recorded-Settled p n r))
    | inr u ↦
        to-Leaves p ns (sync_phase k p n s) (none, s) (rw (r, f, u, sync_phase) refl)
          (λ e.
            kept-Done p ns n s.cluster h
              (subst (λ b. (if b then unready n else unrecorded n) ≡ false) (sym r) u))
  ]

  phase-Leaves :
      (p q ns : String) (n : Namespace) (s : State W)
      → Covers p q
      → find (named ns) (stored s.cluster) ≡ some n
      → Leaves p ns (sync_phase k p n s)
  phase-Leaves p q ns n s (inl r) h = success-Leaves p ns n s r h
  phase-Leaves p q ns n s (inr (r, f, d)) h = failure-Leaves p ns n s r f h

  sync-Leaves :
      (p q ns : String) (s : State W) → Covers p q → Leaves p ns (sync_boot_status k ns p s)
  unfolding sync_boot_status
  sync-Leaves p q ns s c = elim (Answer-cases (k.get_namespace ns s.cluster)) [
    | inl (n, e) ↦
        let found : find (named ns) (stored s.cluster) ≡ some n =
          subst (ReadSpec (find (named ns) (stored s.cluster))) e (sv.get_answer ns s.cluster) in
        elim (Bool-cases (labelled n)) [
          | inl y ↦
              to-Leaves p ns (sync_boot_status k ns p s) (sync_phase k p n s)
                (rw (e, sync_boot_status, y) refl) (phase-Leaves p q ns n s c found)
          | inr u ↦
              to-Leaves p ns (sync_boot_status k ns p s) (none, s)
                (rw (e, sync_boot_status, u) refl)
                (λ z. λ m f. inl (subst (λ r. labelled r ≡ false) (Some-inj n m (sym found ∙ f)) u))
        ]
    | inr (absent f, e) ↦
        let lost : find (named ns) (stored s.cluster) ≡ none =
          subst (ReadSpec (find (named ns) (stored s.cluster))) e (sv.get_answer ns s.cluster) in
        to-Leaves p ns (sync_boot_status k ns p s) (none, s) (rw (e, sync_boot_status) refl)
          (λ z. λ m g. absurd (ground arith))
    | inr (fault f, e) ↦
        to-Leaves p ns (sync_boot_status k ns p s) (some (wrap "get namespace" (fault f)), s)
          (rw (e, sync_boot_status) refl) (λ z. absurd (ground arith))
  ]

  -- Once a call of syncBootStatus has ended without an error, a further one changes nothing and
  -- records nothing: after a call for "Running" one for any phase, after a call for a failure one for
  -- any phase but "Running". A formatted instant must not be the empty text.
  pub sync_boot_status-once :
      (p q ns : String) (s : State W)
      → Covers p q
      → (sync_boot_status k ns p s).0 ≡ none
      → (sync_boot_status k ns q (sync_boot_status k ns p s).1).1 ≡ (sync_boot_status k ns p s).1
  sync_boot_status-once p q ns s c e = Done-quiet p q ns _ c (sync-Leaves p q ns s c e)
