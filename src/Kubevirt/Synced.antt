-- ===== src/Kubevirt/Synced.antt =====
-- syncBootStatus: what it changes of the cluster, and that no session looks different after it.
use cledyu.Base.{
  String, ◌≡◌, refl, subst, ◌⊎◌, inl, inr, false, List, map, Option, none, some, arith, str_eq,
  insert, find,
}
use cledyu.Kubevirt.{ann_user, ann_lab, ann_expires}
use cledyu.Kubevirt.Cluster.{Fault, Answer, got, failed, absent, fault, Namespace, Kube}
use cledyu.Kubevirt.Boot.{
  State, Recorded, ann_ready, ann_recorded, ann_started, write_annotation, sync_phase,
  sync_boot_status,
}
use cledyu.Kubevirt.Laws.{named, annotated, Serves, ReadSpec, UpdateSpec}

pub Answer-cases :
    {A : Type 0} (a : Answer A) → ((x : A) × (a ≡ got x)) ⊎ ((e : Fault) × (a ≡ failed e))
Answer-cases (got x) = inl (x, refl)
Answer-cases (failed e) = inr (e, refl)

-- An annotation that no session is read from.
abbrev pub IsSpare : String → Type 0
IsSpare key =
    (str_eq key ann_user ≡ false)
    × (str_eq key ann_lab ≡ false)
    × (str_eq key ann_started ≡ false)
    × (str_eq key ann_expires ≡ false)

ready-IsSpare : IsSpare ann_ready
unfolding str_eq
ready-IsSpare = (refl, refl, refl, refl)

recorded-IsSpare : IsSpare ann_recorded
unfolding str_eq
recorded-IsSpare = (refl, refl, refl, refl)

-- A spare annotation of the namespace may have been set.
abbrev pub Annotates : String → List Namespace → List Namespace → Type 0
Annotates ns l l' =
    (l' ≡ l)
    ⊎ ((n : Namespace) × (key : String) × (v : String) × (find (named ns) l ≡ some n)
        × IsSpare key
        × (l' ≡ map (annotated ns (insert key v n.annotations)) l))

module _ {W : Type 0} (k : Kube W) (stored : W → List Namespace) (sv : Serves k stored) where
  pub record Synced (ns : String) (w w' : W) : Type 0 where
    pub now : k.now w' ≡ k.now w
    pub vmi : (j vm : String) → k.get_vmi j vm w' ≡ k.get_vmi j vm w
    pub pvc : (j p : String) → k.get_pvc j p w' ≡ k.get_pvc j p w
    pub effect : Annotates ns (stored w) (stored w')

  pub Synced-refl : (ns : String) (w : W) → Synced ns w w
  Synced-refl ns w = record { now = refl; vmi = λ j vm. refl; pvc = λ j p. refl; effect = inl refl }

  Annotates-update :
      (ns key v : String) (n : Namespace) (l l' : List Namespace) (e : Option Fault)
      → find (named ns) l ≡ some n
      → IsSpare key
      → UpdateSpec ns (insert key v n.annotations) l l' e
      → Annotates ns l l'
  Annotates-update ns key v n l l' none h spare u = inr (n, key, v, h, spare, u)
  Annotates-update ns key v n l l' (some e) h spare u = inl u

  write_annotation-Synced :
      (what key v ns : String) (recording : W → List Recorded → List Recorded) (n : Namespace)
      (s : State W)
      → find (named ns) (stored s.cluster) ≡ some n
      → IsSpare key
      → Synced ns s.cluster (write_annotation k what key v recording n s).1.cluster
  unfolding write_annotation
  write_annotation-Synced what key v ns recording n s h spare = record {
    now = sv.update_now _ _;
    vmi = λ j vm. sv.update_vmi _ j vm _;
    pvc = λ j p. sv.update_pvc _ j p _;
    effect = Annotates-update ns key v n _ _ _ h spare (sv.update_effect ns n _ s.cluster h);
  }

  sync_phase-Synced :
      (phase ns : String) (n : Namespace) (s : State W)
      → find (named ns) (stored s.cluster) ≡ some n
      → Synced ns s.cluster (sync_phase k phase n s).1.cluster
  unfolding sync_phase
  sync_phase-Synced phase ns n s h = ground (
    arith,
    Synced-refl ns s.cluster,
    write_annotation-Synced "update ready-at annotation" ann_ready (k.format_time (k.now s.cluster))
        ns _ n s h ready-IsSpare,
    write_annotation-Synced "update boot-result-recorded annotation" ann_recorded "true" ns _ n s h
        recorded-IsSpare,
  )

  pub sync_boot_status-Synced :
      (ns phase : String) (s : State W)
      → Synced ns s.cluster (sync_boot_status k ns phase s).1.cluster
  unfolding sync_boot_status
  sync_boot_status-Synced ns phase s = elim (Answer-cases (k.get_namespace ns s.cluster)) [
    | inl (n, e) ↦
        let h : find (named ns) (stored s.cluster) ≡ some n =
          subst (ReadSpec (find (named ns) (stored s.cluster))) e (sv.get_answer ns s.cluster) in
        rw (e, sync_boot_status)
          (ground (arith, Synced-refl ns s.cluster, sync_phase-Synced phase ns n s h))
    | inr (absent f, e) ↦ rw (e, sync_boot_status) (Synced-refl ns s.cluster)
    | inr (fault f, e) ↦ rw (e, sync_boot_status) (Synced-refl ns s.cluster)
  ]
