-- ===== src/Kubevirt/Spares.antt =====
-- Which sessions the two reapers of the manager leave alone.
use cledyu.Base.{
  keep-All, alive-off, ℕ, ◌<◌, String, ◌≡◌, refl, ap, subst, ◌∙◌, inl, inr, Bool, true, false, List,
  [], ◌∷◌, Option, none, some, arith, str_eq, str_eq_iff, find, keep, All, Bool-cases,
}
use cledyu.Session.{Err}
use cledyu.Kubevirt.{Config, ann_expires, list_sessions, vmi_phase, phase_of}
use cledyu.Kubevirt.Cluster.{Fault, Namespace, Kube}
use cledyu.Kubevirt.Boot.{State, text_at, sync_boot_status}
use cledyu.Kubevirt.Manager.{
  reap_delete, reap_synced, reap_stuck_one, reap_expired_one, reap_each, reap_listed,
  reap_stuck_sessions, reap_expired_sessions, record_phase,
}
use cledyu.Kubevirt.Laws.{
  name_of, marked, is_active, is_managed, named, ListSpec, DeleteSpec, Refused, Serves,
}
use cledyu.Kubevirt.Live.{shown, live, live-annotated, marked-SwitchesOff}
use cledyu.Kubevirt.Synced.{Answer-cases, Annotates, Synced, sync_boot_status-Synced}
use cledyu.Kubevirt.Looks.{only_one}

Annotates-others :
    (j ns : String) (l l' : List Namespace) → Annotates ns l l' → live j l' ≡ live j l
Annotates-others j ns l l' (inl e) = rw e refl
Annotates-others j ns l l' (inr (n, key, v, h, spare, e)) = rw e (live-annotated j ns _ l)

delete-others :
    {W : Type 0} (j ns : String) (e : Option Fault) (w w' : W) (stored : W → List Namespace)
    → DeleteSpec ns (stored w) (stored w') e
    → Refused w w' e
    → str_eq ns j ≡ false
    → live j (stored w') ≡ live j (stored w)
delete-others j ns none w w' stored (here, (t, e)) r d =
    rw e (alive-off name_of is_active (marked ns t) ns (marked-SwitchesOff ns t) j (stored w) d)
delete-others j ns (some f) w w' stored h r d = rw r refl

module _ {W : Type 0} (k : Kube W) (cfg : Config) (stored : W → List Namespace)
    (sv : Serves k stored) where
  -- An active namespace whose VMI is read as running.
  abbrev pub Runs : String → State W → Type 0
  Runs ns s = (live ns (stored s.cluster) ≡ true) × (vmi_phase k ns s.cluster ≡ "Running")

  reap_delete-Runs :
      (ns : String) (n : Namespace) (s : State W)
      → str_eq n.name ns ≡ false
      → Runs ns s
      → Runs ns (reap_delete k cfg n s).1
  unfolding reap_delete vmi_phase
  reap_delete-Runs ns n s d (a, r) = (
    delete-others ns n.name _ s.cluster _ stored (sv.delete_effect n.name s.cluster)
          (sv.delete_refused n.name s.cluster) d
        ∙ a,
    ap phase_of (sv.delete_vmi n.name ns "session-vm" s.cluster d) ∙ r,
  )

  sync-Runs :
      (ns j phase : String) (s : State W) → Runs ns s → Runs ns (sync_boot_status k j phase s).1
  unfolding vmi_phase
  sync-Runs ns j phase s (a, r) =
      let y : Synced k stored sv j s.cluster (sync_boot_status k j phase s).1.cluster =
        sync_boot_status-Synced k stored sv j phase s in
      (Annotates-others ns j _ _ y.effect ∙ a, ap phase_of (y.vmi ns "session-vm") ∙ r)

  reap_synced-Runs :
      (ns : String) (n : Namespace) (r : Option Err × State W)
      → str_eq n.name ns ≡ false
      → Runs ns r.1
      → Runs ns (reap_synced k cfg n r).1
  unfolding reap_synced
  reap_synced-Runs ns n (some e, s) d h = h
  reap_synced-Runs ns n (none, s) d h = reap_delete-Runs ns n s d h

  reap_stuck_one-Runs :
      (now timeout : ℕ) (ns : String) (n : Namespace) (s : State W)
      → Runs ns s
      → Runs ns (reap_stuck_one k cfg now timeout n s).1
  unfolding reap_stuck_one
  reap_stuck_one-Runs now timeout ns n s h = elim (Bool-cases (str_eq n.name ns)) [
    | inl e ↦
        let running : str_eq (vmi_phase k n.name s.cluster) "Running" ≡ true =
          (str_eq_iff _ _).1
            (ap (λ j. vmi_phase k j s.cluster) ((str_eq_iff n.name ns).0 e) ∙ h.1) in
        ground (arith, running, h)
    | inr d ↦ ground (
      arith,
      reap_synced-Runs ns n
          (sync_boot_status k n.name (record_phase (vmi_phase k n.name s.cluster)) s) d
          (sync-Runs ns n.name (record_phase (vmi_phase k n.name s.cluster)) s h),
    )
  ]

  reap_each-Runs :
      (ns : String) (one : Namespace → State W → Bool × State W) (l : List Namespace) (s : State W)
      → ((n : Namespace) (t : State W) → Runs ns t → Runs ns (one n t).1)
      → Runs ns s
      → Runs ns (reap_each k cfg one l s).1
  unfolding reap_each
  reap_each-Runs ns one [] s step h = h
  reap_each-Runs ns one (n ∷ l) s step h = reap_each-Runs ns one l _ step (step n s h)

  -- The reaper of stuck sessions deletes no session whose VMI it reads as running, whatever the age.
  pub reap_stuck_sessions-spares :
      (ns : String) (timeout : ℕ) (s : State W)
      → live ns (stored s.cluster) ≡ true
      → vmi_phase k ns s.cluster ≡ "Running"
      → live ns (stored (reap_stuck_sessions k cfg timeout s).1.cluster) ≡ true
  unfolding reap_stuck_sessions reap_listed
  reap_stuck_sessions-spares ns timeout s a r = elim (Answer-cases (list_sessions k s.cluster)) [
    | inl (l, e) ↦
        rw (e, reap_stuck_sessions, reap_listed)
          ((reap_each-Runs ns _ l s (reap_stuck_one-Runs (k.now s.cluster) timeout ns) (a, r)).0)
    | inr (f, e) ↦ rw (e, reap_stuck_sessions, reap_listed) a
  ]

  reap_delete-live :
      (ns : String) (n : Namespace) (s : State W)
      → str_eq n.name ns ≡ false
      → live ns (stored s.cluster) ≡ true
      → live ns (stored (reap_delete k cfg n s).1.cluster) ≡ true
  unfolding reap_delete
  reap_delete-live ns n s d a =
      delete-others ns n.name _ s.cluster _ stored (sv.delete_effect n.name s.cluster)
        (sv.delete_refused n.name s.cluster) d
      ∙ a

  -- the expiry of a listed namespace of the name
  abbrev ExpiresAt : String → ℕ → Namespace → Type 0
  ExpiresAt ns t n =
      str_eq n.name ns ≡ true → k.parse_time (text_at ann_expires n.annotations) ≡ some t

  reap_expired_one-live :
      (now t : ℕ) (ns : String) (n : Namespace) (s : State W)
      → now < t
      → ExpiresAt ns t n
      → live ns (stored s.cluster) ≡ true
      → live ns (stored (reap_expired_one k cfg now n s).1.cluster) ≡ true
  unfolding reap_expired_one
  reap_expired_one-live now t ns n s early x a = elim (Bool-cases (str_eq n.name ns)) [
    | inl e ↦ rw (x e, reap_expired_one) (ground arith)
    | inr d ↦ ground (arith, reap_delete-live ns n s d a)
  ]

  reap_each-live :
      (now t : ℕ) (ns : String) (l : List Namespace) (s : State W)
      → now < t
      → All (ExpiresAt ns t) l
      → live ns (stored s.cluster) ≡ true
      → live ns (stored (reap_each k cfg (reap_expired_one k cfg now) l s).1.cluster) ≡ true
  unfolding reap_each
  reap_each-live now t ns [] s early x a = a
  reap_each-live now t ns (n ∷ l) s early (x, xs) a =
      reap_each-live now t ns l _ early xs (reap_expired_one-live now t ns n s early x a)

  expires-All :
      (ns : String) (n : Namespace) (t : ℕ) (l : List Namespace)
      → k.parse_time (text_at ann_expires n.annotations) ≡ some t
      → All (λ m. str_eq m.name ns ≡ true → m ≡ n) l
      → All (ExpiresAt ns t) l
  expires-All ns n t [] p h = tt
  expires-All ns n t (m ∷ l) p (h, hs) = (
    λ e. ap (λ r. k.parse_time (text_at ann_expires r.annotations)) (h e) ∙ p,
    expires-All ns n t l p hs,
  )

  -- The reaper of expired sessions deletes no active session whose expiry can be read and is still
  -- to come.
  pub reap_expired_sessions-spares :
      (ns : String) (n : Namespace) (t : ℕ) (s : State W)
      → find (named ns) (stored s.cluster) ≡ some n
      → is_active n ≡ true
      → k.parse_time (text_at ann_expires n.annotations) ≡ some t
      → k.now s.cluster < t
      → live ns (stored (reap_expired_sessions k cfg s).1.cluster) ≡ true
  unfolding reap_expired_sessions reap_listed
  reap_expired_sessions-spares ns n t s h act p early =
      elim (Answer-cases (list_sessions k s.cluster)) [
        | inl (l, e) ↦
            let all : l ≡ keep is_managed (stored s.cluster) =
              subst (ListSpec (stored s.cluster)) e (sv.list_answer s.cluster) in
            rw (e, reap_expired_sessions, reap_listed, all)
              (reap_each-live (k.now s.cluster) t ns _ s early
                (keep-All (ExpiresAt ns t) is_managed (stored s.cluster)
                  (expires-All ns n t _ p (only_one ns n _ (sv.distinct s.cluster) h)))
                (ap shown h ∙ act))
        | inr (f, e) ↦ rw (e, reap_expired_sessions, reap_listed) (ap shown h ∙ act)
      ]
