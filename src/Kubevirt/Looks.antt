-- ===== src/Kubevirt/Looks.antt =====
-- How a session looks through Get, and that a spare annotation does not change it.
use cledyu.Base.{
  String, ◌≡◌, refl, ap, subst, inl, inr, true, false, List, [], ◌∷◌, map, Option, none, some,
  GoMap, arith, str_eq, str_eq_iff, if◌then◌else◌, insert, lookup-insert, find, keep, All,
  Bool-cases,
}
use cledyu.Session.{Status, provisioning, ready, failed as failed_status, Session, ok}
use cledyu.Kubevirt.{
  Config, ann_user, ann_lab, ann_expires, namespace_of, first_of, provisioning_timed_out,
}
use cledyu.Kubevirt.Cluster.{Namespace, Kube}
use cledyu.Kubevirt.Boot.{State, ann_started, text_at, started_at}
use cledyu.Kubevirt.Manager.{session_of, vmi_shows, time_out}
use cledyu.Kubevirt.Laws.{named, annotated, is_managed, Distinct}
use cledyu.Kubevirt.Synced.{IsSpare}

-- The annotations that a session is read from are the same.
abbrev pub SameMeta : GoMap String → GoMap String → Type 0
SameMeta a b =
    (text_at ann_user a ≡ text_at ann_user b)
    × (text_at ann_lab a ≡ text_at ann_lab b)
    × (text_at ann_started a ≡ text_at ann_started b)
    × (text_at ann_expires a ≡ text_at ann_expires b)

text_at-insert :
    (key v j : String) (m : GoMap String)
    → str_eq key j ≡ false
    → text_at j (insert key v m) ≡ text_at j m
text_at-insert key v j m h = ground (arith, lookup-insert key j v m)

pub insert-SameMeta :
    (key v : String) (m : GoMap String) → IsSpare key → SameMeta (insert key v m) m
insert-SameMeta key v m (u, l, s, e) = (
  text_at-insert key v ann_user m u,
  text_at-insert key v ann_lab m l,
  text_at-insert key v ann_started m s,
  text_at-insert key v ann_expires m e,
)

-- In a list without two of one name, the first of a name is the only one.
no_other :
    (ns : String) (n : Namespace) (l : List Namespace)
    → All (λ m. str_eq m.name n.name ≡ false) l
    → str_eq n.name ns ≡ true
    → All (λ m. str_eq m.name ns ≡ true → m ≡ n) l
no_other ns n [] h e = tt
no_other ns n (m ∷ l) (d, h) e = (
  λ f. ground (arith, str_eq_iff n.name ns, str_eq_iff m.name ns, str_eq_iff m.name n.name),
  no_other ns n l h e,
)

pub only_one :
    (ns : String) (n : Namespace) (l : List Namespace)
    → Distinct l
    → find (named ns) l ≡ some n
    → All (λ m. str_eq m.name ns ≡ true → m ≡ n) l
only_one ns n [] d h = tt
only_one ns n (m ∷ l) (d, ds) h = elim (Bool-cases (str_eq m.name ns)) [
  | inl e ↦
      let same : m ≡ n = ground arith in
      (
        λ f. same,
        subst (λ r. All (λ x. str_eq x.name ns ≡ true → x ≡ r) l) same (no_other ns m l d e),
      )
  | inr e ↦ (λ f. ground (arith), only_one ns n l ds (ground arith))
]

pub first_of-annotated :
    (uid ns : String) (n : Namespace) (a : GoMap String) (l : List Namespace)
    → All (λ m. str_eq m.name ns ≡ true → m ≡ n) l
    → SameMeta a n.annotations
    → first_of uid (keep is_managed (map (annotated ns a) l)) ≡ first_of uid (keep is_managed l)
unfolding first_of
first_of-annotated uid ns n a [] h same = refl
first_of-annotated uid ns n a (m ∷ l) (e, h) same = elim (Bool-cases (str_eq m.name ns)) [
  | inl yes_named ↦ ground (
    arith,
    first_of-annotated uid ns n a l h same,
    same.0,
    ap (λ r. text_at ann_user r.annotations) (e yes_named),
  )
  | inr other ↦ ground (arith, first_of-annotated uid ns n a l h same)
]

pub find-named :
    (ns : String) (n : Namespace) (l : List Namespace)
    → find (named ns) l ≡ some n
    → str_eq n.name ns ≡ true
find-named ns n [] h = ground arith
find-named ns n (m ∷ l) h = ground (arith, find-named ns n l)

abbrev pub mapped : (Namespace → Namespace) → Option Namespace → Option Namespace
mapped f (some n) = some (f n)
mapped f none = none

pub find-annotated :
    (j ns : String) (a : GoMap String) (l : List Namespace)
    → find (named j) (map (annotated ns a) l) ≡ mapped (annotated ns a) (find (named j) l)
find-annotated j ns a [] = refl
find-annotated j ns a (m ∷ l) = ground (arith, find-annotated j ns a l)

module _ {W : Type 0} (k : Kube W) (cfg : Config) where
  -- the outcome of `time_out` without its effects
  unfoldable pub settle : String → Namespace → Status × String → W → Session
  unfolding session_of provisioning_timed_out
  settle id n (provisioning, stage) w =
      if provisioning_timed_out k cfg (started_at k n) w
      then session_of k cfg id n failed_status ""
      else session_of k cfg id n provisioning stage
  settle id n (ready, stage) w = session_of k cfg id n ready stage
  settle id n (failed_status, stage) w = session_of k cfg id n failed_status stage

  unfoldable pub seen : String → Namespace → W → Session
  unfolding settle vmi_shows
  seen id n w =
      settle id n (vmi_shows k cfg (namespace_of id) (k.get_vmi (namespace_of id) "session-vm" w) w)
        w

  pub time_out-settle :
      (id : String) (n : Namespace) (p : Status × String) (s : State W)
      → (time_out k cfg id n p s).0 ≡ ok (settle id n p s.cluster)
  unfolding time_out settle
  time_out-settle id n (provisioning, stage) s = ground arith
  time_out-settle id n (ready, stage) s = refl
  time_out-settle id n (failed_status, stage) s = refl

  session_of-same :
      (id : String) (n : Namespace) (a : GoMap String) (st : Status) (stage : String)
      → SameMeta a n.annotations
      → session_of k cfg id (record n { annotations = a }) st stage ≡ session_of k cfg id n st stage
  unfolding session_of
  session_of-same id n a st stage (u, l, b, e) = rw (u, l, b, e) refl

  pub settle-same :
      (id : String) (n : Namespace) (a : GoMap String) (p : Status × String) (w : W)
      → SameMeta a n.annotations
      → settle id (record n { annotations = a }) p w ≡ settle id n p w
  unfolding settle
  settle-same id n a (provisioning, stage) w same =
      rw
        (
          session_of-same id n a failed_status "" same,
          session_of-same id n a provisioning stage same,
          same.2,
        )
        refl
  settle-same id n a (ready, stage) w same = session_of-same id n a ready stage same
  settle-same id n a (failed_status, stage) w same = session_of-same id n a failed_status stage same

  pub settle-now :
      (id : String) (n : Namespace) (p : Status × String) (w w' : W)
      → k.now w' ≡ k.now w
      → settle id n p w' ≡ settle id n p w
  unfolding settle
  settle-now id n (provisioning, stage) w w' h = rw h refl
  settle-now id n (ready, stage) w w' h = refl
  settle-now id n (failed_status, stage) w w' h = refl
