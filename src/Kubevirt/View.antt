-- ===== src/Kubevirt/View.antt =====
-- What can be seen of a cluster through the manager, in the terms of the session contract, and that
-- syncBootStatus leaves all of it alone.
use cledyu.Base.{
  String, ◌≡◌, refl, sym, ap, subst, ◌∙◌, inl, inr, true, List, [], ◌∷◌, Bool-cases, map, Option,
  none, some, GoMap, arith, str_eq, if◌then◌else◌, insert, find, keep, count, All,
}
use cledyu.Session.{Session}
use cledyu.Session.Contract.{View, View_path}
use cledyu.Kubevirt.{Config, namespace_of, first_of, provisioning_stage, phase_of, phase_status}
use cledyu.Kubevirt.Cluster.{Namespace, Kube}
use cledyu.Kubevirt.Laws.{named, annotated, is_managed, is_active, Serves}
use cledyu.Kubevirt.Manager.{vmi_shows, with_stage}
use cledyu.Kubevirt.Live.{
  goes_by, live, active_among, live-annotated, count-named_annotated, count-annotated,
}
use cledyu.Kubevirt.Synced.{Synced}
use cledyu.Kubevirt.Looks.{
  SameMeta, insert-SameMeta, only_one, first_of-annotated, seen, settle, settle-same, settle-now,
}

module _ {W : Type 0} (k : Kube W) (cfg : Config) (stored : W → List Namespace) where
  abbrev pub looks : String → Option Namespace → W → Option Session
  looks id none w = none
  looks id (some n) w = some (seen k cfg id n w)

  abbrev pub active_of : String → List Namespace → String
  active_of uid l = if str_eq uid "" then "" else first_of uid (keep is_managed l)

  -- Get answers for every namespace of the right name; the other operations see only those with the
  -- label that are not being deleted.
  abbrev pub view : W → View
  view w = record {
    session = λ id. looks id (find (named (namespace_of id)) (stored w)) w;
    active_of = λ uid. active_of uid (stored w);
    active = count is_active (stored w);
    runs = λ id. live (namespace_of id) (stored w);
    live = λ id. count (active_among (goes_by id)) (stored w);
  }

  stage-reads :
      (sv : Serves k stored) (ns j p : String) (w w' : W)
      → Synced k stored sv j w w'
      → provisioning_stage k ns p w' ≡ provisioning_stage k ns p w
  unfolding provisioning_stage
  stage-reads sv ns j p w w' y = rw (y.pvc ns "session-rootdisk", provisioning_stage) refl

  vmi_shows-reads :
      (sv : Serves k stored) (ns j : String) (w w' : W)
      → Synced k stored sv j w w'
      → vmi_shows k cfg ns (k.get_vmi ns "session-vm" w') w'
        ≡ vmi_shows k cfg ns (k.get_vmi ns "session-vm" w) w
  unfolding vmi_shows
  vmi_shows-reads sv ns j w w' y =
      ap (λ a. with_stage (phase_status (phase_of a)) (provisioning_stage k ns (phase_of a) w'))
        (y.vmi ns "session-vm")
      ∙ ap (with_stage _) (stage-reads sv ns j (phase_of (k.get_vmi ns "session-vm" w)) w w' y)

  pub seen-reads :
      (sv : Serves k stored) (id ns : String) (n : Namespace) (w w' : W)
      → Synced k stored sv ns w w'
      → seen k cfg id n w' ≡ seen k cfg id n w
  unfolding seen
  seen-reads sv id ns n w w' y =
      settle-now k cfg id n
        (vmi_shows k cfg (namespace_of id) (k.get_vmi (namespace_of id) "session-vm" w') w') w w'
        y.now
      ∙ ap (λ p. settle k cfg id n p w) (vmi_shows-reads sv (namespace_of id) ns w w' y)

  seen-annotated :
      (id ns : String) (a : GoMap String) (n m : Namespace) (w : W)
      → (str_eq m.name ns ≡ true → m ≡ n)
      → SameMeta a n.annotations
      → seen k cfg id (annotated ns a m) w ≡ seen k cfg id m w
  unfolding seen
  seen-annotated id ns a n m w o same = elim (Bool-cases (str_eq m.name ns)) [
    | inl e ↦
        let same' : SameMeta a m.annotations =
          subst (λ r. SameMeta a r.annotations) (sym (o e)) same in
        rw e (settle-same k cfg id m a _ w same')
    | inr e ↦ rw e refl
  ]

  looks-annotated :
      (id ns : String) (a : GoMap String) (n : Namespace) (l : List Namespace) (w : W)
      → All (λ m. str_eq m.name ns ≡ true → m ≡ n) l
      → SameMeta a n.annotations
      → looks id (find (named (namespace_of id)) (map (annotated ns a) l)) w
        ≡ looks id (find (named (namespace_of id)) l) w
  looks-annotated id ns a n [] w only same = refl
  looks-annotated id ns a n (m ∷ l) w (o, only) same =
      ground (arith, seen-annotated id ns a n m w o same, looks-annotated id ns a n l w only same)

  looks-reads :
      (sv : Serves k stored) (id ns : String) (o : Option Namespace) (w w' : W)
      → Synced k stored sv ns w w'
      → looks id o w' ≡ looks id o w
  looks-reads sv id ns none w w' y = refl
  looks-reads sv id ns (some n) w w' y = ap some (seen-reads sv id ns n w w' y)

  pub Synced-view :
      (sv : Serves k stored) (ns : String) (w w' : W)
      → Synced k stored sv ns w w'
      → view w' ≡ view w
  Synced-view sv ns w w' y = elim y.effect [
    | inl e ↦
        View_path (view w') (view w)
          (λ id.
            ap (λ l. looks id (find (named (namespace_of id)) l) w') e
            ∙ looks-reads sv id ns _ w w' y)
          (λ uid. ap (active_of uid) e) (ap (count is_active) e)
          (λ id. ap (live (namespace_of id)) e) (λ id. ap (count (active_among (goes_by id))) e)
    | inr (n, key, v, h, spare, e) ↦
        let only : All (λ m. str_eq m.name ns ≡ true → m ≡ n) (stored w) =
          only_one ns n (stored w) (sv.distinct w) h in
        let same : SameMeta (insert key v n.annotations) n.annotations =
          insert-SameMeta key v n.annotations spare in
        View_path (view w') (view w)
          (λ id.
            ap (λ l. looks id (find (named (namespace_of id)) l) w') e
            ∙ looks-reads sv id ns _ w w' y
            ∙ looks-annotated id ns _ n (stored w) w only same)
          (λ uid.
            ap (active_of uid) e
            ∙ ap (λ r. if str_eq uid "" then "" else r)
                (first_of-annotated uid ns n _ (stored w) only same))
          (ap (count is_active) e ∙ count-annotated ns _ (stored w))
          (λ id. ap (live (namespace_of id)) e ∙ live-annotated (namespace_of id) ns _ (stored w))
          (λ id.
            ap (count (active_among (goes_by id))) e
            ∙ count-named_annotated (goes_by id) ns _ (stored w))
  ]
