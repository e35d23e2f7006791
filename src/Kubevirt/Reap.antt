-- ===== src/Kubevirt/Reap.antt =====
-- The loop bodies of the two reapers: a namespace that counts as reaped was active and is so no more,
-- and no other one changes.
use cledyu.Base.{
  ◌+◌, ◌≤◌, ◌&&◌, count, tally, ℕ, String, ◌≡◌, refl, ap, ◌∙◌, inl, inr, Bool, true, false, not,
  List, Option, none, some, arith, Bool-cases, insert, Drops, Drops-refl, Drops-trans, off-Drops,
}
use cledyu.Session.{Err}
use cledyu.Kubevirt.{Config, namespace_deleting, hard_fault, vmi_phase}
use cledyu.Kubevirt.Cluster.{Fault, absent, fault, Namespace, Kube}
use cledyu.Kubevirt.Boot.{State, sync_boot_status}
use cledyu.Kubevirt.Manager.{
  reap_delete, reap_synced, reap_stuck_one, reap_expired_one, record_phase,
}
use cledyu.Kubevirt.Laws.{name_of, is_active, marked, DeleteSpec, Refused, Serves}
use cledyu.Kubevirt.Live.{
  active_among, count-named_annotated, marked-among, shown, live, live-annotated,
  marked-SwitchesOff, count-annotated,
}
use cledyu.Kubevirt.Synced.{Annotates, Synced, sync_boot_status-Synced}

-- What a step for a namespace may do: of the active ones whose name satisfies a test, too, one goes if it is hit
-- and its name satisfies the test.
pub record Reaps (ns : String) (hit : Bool) (l l' : List Namespace) : Type 0 where
  pub drops : Drops name_of is_active ns hit l l'
  pub among :
      (p : String → Bool)
      → count (active_among p) l' + tally (hit && p ns) ≤ count (active_among p) l

Reaps-refl : (ns : String) (l : List Namespace) → Reaps ns false l l
Reaps-refl ns l = record { drops = Drops-refl name_of is_active ns l; among = λ p. omega arith }

Reaps-trans :
    (ns : String) (hit : Bool) (l l' l'' : List Namespace)
    → Reaps ns false l l'
    → Reaps ns hit l' l''
    → Reaps ns hit l l''
Reaps-trans ns hit l l' l'' a b = record {
  drops = Drops-trans name_of is_active ns hit l l' l'' a.drops b.drops;
  among = λ p. omega (arith, a.among p, b.among p);
}

Annotates-Drops : (ns : String) (l l' : List Namespace) → Annotates ns l l' → Reaps ns false l l'
Annotates-Drops ns l l' (inl e) = rw e (Reaps-refl ns l)
Annotates-Drops ns l l' (inr (n, key, v, h, spare, e)) = rw e (record {
  drops = record {
    fewer = omega (arith, count-annotated ns (insert key v n.annotations) l);
    others = λ j d. live-annotated j ns _ l;
  };
  among = λ p. omega (arith, count-named_annotated p ns (insert key v n.annotations) l);
})

Annotates-live : (ns : String) (l l' : List Namespace) → Annotates ns l l' → live ns l' ≡ live ns l
Annotates-live ns l l' (inl e) = rw e refl
Annotates-live ns l l' (inr (n, key, v, h, spare, e)) = rw e (live-annotated ns ns _ l)

delete-Drops :
    {W : Type 0} (ns : String) (e : Option Fault) (w w' : W) (stored : W → List Namespace)
    → DeleteSpec ns (stored w) (stored w') e
    → Refused w w' e
    → live ns (stored w) ≡ true
    → Reaps ns (not (hard_fault e)) (stored w) (stored w')
delete-Drops ns none w w' stored (here, (t, e)) r h = rw e (record {
  drops = off-Drops name_of is_active (marked ns t) ns (stored w) (marked-SwitchesOff ns t) h;
  among = λ p. marked-among p ns t (stored w) h;
})
delete-Drops ns (some (absent f)) w w' stored d r h = absurd (ground (arith, ap shown d))
delete-Drops ns (some (fault f)) w w' stored d r h = rw r (Reaps-refl ns (stored w))

module _ {W : Type 0} (k : Kube W) (cfg : Config) (stored : W → List Namespace)
    (sv : Serves k stored) where
  -- A loop body that drops at most the namespace that it is given.
  abbrev pub IsStep : (Namespace → State W → Bool × State W) → Type 0
  IsStep one =
      (n : Namespace) (s : State W)
      → (namespace_deleting n ≡ false → live n.name (stored s.cluster) ≡ true)
      → Reaps n.name (one n s).0 (stored s.cluster) (stored (one n s).1.cluster)

  reap_delete-Drops :
      (n : Namespace) (s : State W)
      → live n.name (stored s.cluster) ≡ true
      → Reaps n.name
          (reap_delete k cfg n s).0
          (stored s.cluster)
          (stored (reap_delete k cfg n s).1.cluster)
  unfolding reap_delete
  reap_delete-Drops n s h =
      delete-Drops n.name (k.delete_namespace n.name s.cluster).0 s.cluster
        (k.delete_namespace n.name s.cluster).1 stored (sv.delete_effect n.name s.cluster)
        (sv.delete_refused n.name s.cluster) h

  pub reap_expired_one-IsStep : (now : ℕ) → IsStep (reap_expired_one k cfg now)
  unfolding reap_expired_one
  reap_expired_one-IsStep now n s h = elim (Bool-cases (namespace_deleting n)) [
    | inl gone ↦ rw gone (Reaps-refl n.name (stored s.cluster))
    | inr here ↦
        rw here
          (ground (arith, Reaps-refl n.name (stored s.cluster), reap_delete-Drops n s (h here)))
  ]

  reap_synced-Drops :
      (n : Namespace) (r : Option Err × State W)
      → live n.name (stored r.1.cluster) ≡ true
      → Reaps n.name
          (reap_synced k cfg n r).0
          (stored r.1.cluster)
          (stored (reap_synced k cfg n r).1.cluster)
  unfolding reap_synced
  reap_synced-Drops n (some e, s) h = Reaps-refl n.name (stored s.cluster)
  reap_synced-Drops n (none, s) h = reap_delete-Drops n s h

  synced-Drops :
      (phase : String) (n : Namespace) (s : State W)
      → live n.name (stored s.cluster) ≡ true
      → let r : Bool × State W = reap_synced k cfg n (sync_boot_status k n.name phase s) in
        Reaps n.name r.0 (stored s.cluster) (stored r.1.cluster)
  synced-Drops phase n s h =
      let y : Synced k stored sv n.name s.cluster (sync_boot_status k n.name phase s).1.cluster =
        sync_boot_status-Synced k stored sv n.name phase s in
      Reaps-trans n.name _ _ _ _ (Annotates-Drops n.name _ _ y.effect)
        (reap_synced-Drops n _ (Annotates-live n.name _ _ y.effect ∙ h))

  pub reap_stuck_one-IsStep : (now timeout : ℕ) → IsStep (reap_stuck_one k cfg now timeout)
  unfolding reap_stuck_one
  reap_stuck_one-IsStep now timeout n s h = elim (Bool-cases (namespace_deleting n)) [
    | inl gone ↦ rw gone (Reaps-refl n.name (stored s.cluster))
    | inr here ↦ rw here (
        ground (
          arith,
          Reaps-refl n.name (stored s.cluster),
          synced-Drops (record_phase (vmi_phase k n.name s.cluster)) n s (h here),
        ))
  ]
