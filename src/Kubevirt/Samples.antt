-- ===== src/Kubevirt/Samples.antt =====
-- A small cluster in memory that keeps the laws of the API, and instances of the theorems.
use cledyu.Base.{
  ℕ, String, ◌≡◌, ◌≢◌, refl, ap, ◌⊎◌, inl, inr, true, false, List, [], ◌∷◌, map, Option, none, some,
  GoMap, arith, str_eq, str_eq_iff, if◌then◌else◌, find, keep, All, lookup,
}
use cledyu.Kubevirt.{Config, vmi_phase, ann_expires}
use cledyu.Kubevirt.Cluster.{
  Fault, absent, fault, Answer, got, failed, Namespace, NewNamespace, interface, Kube,
}
use cledyu.Kubevirt.Boot.{label_managed_by, managed_by_value, text_at, State, sync_boot_status}
use cledyu.Kubevirt.Manager.{reap_stuck_sessions, reap_expired_sessions}
use cledyu.Kubevirt.Laws.{
  is_managed, is_active, named, marked, annotated, started, Distinct, CreateSpec, ReadSpec,
  DeleteSpec, Refused, Serves,
}
use cledyu.Kubevirt.Looks.{find-named}
use cledyu.Kubevirt.Live.{live}
use cledyu.Kubevirt.Spares.{reap_stuck_sessions-spares}
use cledyu.Kubevirt.Once.{sync_boot_status-once}

abbrev Mem : Type 0
Mem = (l : List Namespace) × Distinct l

pub fresh :
    (ns : String) (l : List Namespace)
    → find (named ns) l ≡ none
    → All (λ m. str_eq m.name ns ≡ false) l
fresh ns [] h = tt
fresh ns (n ∷ l) h = (ground arith, fresh ns l (ground arith))

pub map-All :
    (f : Namespace → Namespace) (ns : String) (l : List Namespace)
    → ((n : Namespace) → (f n).name ≡ n.name)
    → All (λ m. str_eq m.name ns ≡ false) l
    → All (λ m. str_eq m.name ns ≡ false) (map f l)
map-All f ns [] h d = tt
map-All f ns (n ∷ l) h (d, ds) = (rw (h n) d, map-All f ns l h ds)

pub map-Distinct :
    (f : Namespace → Namespace) (l : List Namespace)
    → ((n : Namespace) → (f n).name ≡ n.name)
    → Distinct l
    → Distinct (map f l)
map-Distinct f [] h d = tt
map-Distinct f (n ∷ l) h (d, ds) = (rw (h n) (map-All f n.name l h d), map-Distinct f l h ds)

pub marked-name : (ns : String) (t : ℕ) (n : Namespace) → (marked ns t n).name ≡ n.name
marked-name ns t n = ground arith

pub annotated-name :
    (ns : String) (a : GoMap String) (n : Namespace) → (annotated ns a n).name ≡ n.name
annotated-name ns a n = ground arith

abbrev Cases : String → List Namespace → Type 0
Cases ns l = (find (named ns) l ≡ none) ⊎ ((n : Namespace) × (find (named ns) l ≡ some n))

abbrev split : (o : Option Namespace) → (o ≡ none) ⊎ ((n : Namespace) × (o ≡ some n))
split none = inl refl
split (some n) = inr (n, refl)

abbrev create_in : (n : NewNamespace) (w : Mem) → Cases n.name w.0 → Option Fault × Mem
create_in n (l, d) (inl e) = (none, (started n 7 ∷ l, (fresh n.name l e, d)))
create_in n w (inr e) = (some (fault "exists"), w)

abbrev delete_in : (ns : String) (w : Mem) → Cases ns w.0 → Option Fault × Mem
delete_in ns w (inl e) = (some (absent "none"), w)
delete_in ns (l, d) (inr e) =
    (none, (map (marked ns 7) l, map-Distinct (marked ns 7) l (marked-name ns 7) d))

abbrev found : Option Namespace → Answer Namespace
found (some n) = got n
found none = failed (absent "none")

abbrev read_time : String → Option ℕ
read_time s = if str_eq s "100" then some 100 else if str_eq s "9000" then some 9000 else none

abbrev pub cluster : Kube Mem
cluster = record {
  list_namespaces = λ key value w. got (keep is_managed w.0);
  get_namespace = λ ns w. found (find (named ns) w.0);
  create_namespace = λ n w. create_in n w (split (find (named n.name) w.0));
  update_namespace = λ n w. (
    none,
    (
      map (annotated n.name n.annotations) w.0,
      map-Distinct (annotated n.name n.annotations) w.0 (annotated-name n.name n.annotations) w.1,
    ),
  );
  delete_namespace = λ ns w. delete_in ns w (split (find (named ns) w.0));
  create_secret = λ ns name d w. (none, w);
  create_vm = λ v w. (none, w);
  get_vmi = λ ns vm w. got (record {
    phase = if str_eq ns "lab-a1" then "Running" else "Scheduling";
    interfaces = interface "10.0.0.7" ∷ [];
  });
  get_pvc = λ ns p w. got "Bound";
  now = λ w. 5000;
  format_time = λ t. "100";
  parse_time = read_time;
}

abbrev pub stored : Mem → List Namespace
stored w = w.0

create_in-effect :
    (n : NewNamespace) (w : Mem) (c : Cases n.name w.0)
    → CreateSpec n (stored w) (stored (create_in n w c).1) (create_in n w c).0
create_in-effect n (l, d) (inl e) = ([], l, 7, refl, refl)
create_in-effect n w (inr e) = refl

delete_in-effect :
    (ns : String) (w : Mem) (c : Cases ns w.0)
    → DeleteSpec ns (stored w) (stored (delete_in ns w c).1) (delete_in ns w c).0
delete_in-effect ns w (inl e) = e
delete_in-effect ns (l, d) (inr (n, e)) = (λ h. ground arith, (7, refl))

delete_in-Refused :
    (ns : String) (w : Mem) (c : Cases ns w.0) → Refused w (delete_in ns w c).1 (delete_in ns w c).0
delete_in-Refused ns w (inl e) = refl
delete_in-Refused ns (l, d) (inr e) = tt

found_answer : (o : Option Namespace) → ReadSpec o (found o)
found_answer (some n) = refl
found_answer none = refl

pub cluster-Serves : Serves cluster stored
cluster-Serves = record {
  distinct = λ w. w.1;
  list_answer = λ w. refl;
  get_answer = λ ns w. found_answer (find (named ns) w.0);
  create_effect = λ n w. create_in-effect n w _;
  secret_keeps = λ ns name d w. refl;
  vm_keeps = λ v w. refl;
  update_effect = λ ns n a w h.
      ap (λ j. map (annotated j a) w.0) ((str_eq_iff n.name ns).0 (find-named ns n w.0 h));
  update_vmi = λ n ns vm w. refl;
  update_pvc = λ n ns p w. refl;
  update_now = λ n w. refl;
  delete_effect = λ ns w. delete_in-effect ns w _;
  delete_refused = λ ns w. delete_in-Refused ns w _;
  delete_vmi = λ j ns vm w d. refl;
}

abbrev pub config : Config
config = record {
  session_ttl_hours = 4;
  max_active_sessions = 1;
  provision_timeout_minutes = 15;
  lab_ssh_public_key = "";
  file_list_ssh_public_key = "";
  base_image_ns = "images";
  base_image_name = "ubuntu";
  storage_class = "fast";
}

abbrev a_namespace : String → String → Namespace
a_namespace name expires = record {
  name = name;
  labels = (label_managed_by, managed_by_value) ∷ [];
  annotations = ("cledyu.io/started-at", "100") ∷ ("cledyu.io/expires-at", expires) ∷ [];
  phase = "Active";
  deletion_timestamp = none;
  creation_timestamp = 100;
}

differ : str_eq "lab-b2" "lab-a1" ≡ false
unfolding str_eq
differ = refl

-- Two old sessions, the first one running.
abbrev two_old : State Mem
two_old = record {
  cluster =
      (a_namespace "lab-a1" "9000" ∷ a_namespace "lab-b2" "100" ∷ [], ((differ, tt), (tt, tt)));
  recorded = [];
}

old_live : live "lab-a1" (stored two_old.cluster) ≡ true
unfolding str_eq lookup
old_live = refl

runs : vmi_phase cluster "lab-a1" two_old.cluster ≡ "Running"
unfolding vmi_phase str_eq
runs = refl

reap_stuck_sessions-spares_example :
    live "lab-a1" (stored (reap_stuck_sessions cluster config 600 two_old).1.cluster) ≡ true
reap_stuck_sessions-spares_example =
    reap_stuck_sessions-spares cluster config stored cluster-Serves "lab-a1" 600 two_old old_live
      runs

first_found : find (named "lab-a1") (stored two_old.cluster) ≡ some (a_namespace "lab-a1" "9000")
unfolding str_eq
first_found = refl

first_active : is_active (a_namespace "lab-a1" "9000") ≡ true
unfolding str_eq lookup
first_active = refl

first_expires :
    read_time (text_at ann_expires (a_namespace "lab-a1" "9000").annotations) ≡ some 9000
unfolding str_eq lookup
first_expires = refl

other_reaped : (reap_expired_sessions cluster config two_old).0.0 ≡ "b2" ∷ []
unfolding reap_expired_sessions str_eq lookup
other_reaped = refl

nonempty : str_eq "100" "" ≡ false
unfolding str_eq
nonempty = refl

dated : (t : ℕ) → cluster.format_time t ≢ ""
dated t h = absurd (ground (arith, nonempty, (str_eq_iff "100" "").1 h))

running_covers : str_eq "Running" "Running" ≡ true
unfolding str_eq
running_covers = refl

recorded_first : (sync_boot_status cluster "lab-a1" "Running" two_old).0 ≡ none
unfolding sync_boot_status str_eq lookup
recorded_first = refl

sync_boot_status-once_example :
    (sync_boot_status cluster "lab-a1" "TimedOut"
      (sync_boot_status cluster "lab-a1" "Running" two_old).1).1
    ≡ (sync_boot_status cluster "lab-a1" "Running" two_old).1
sync_boot_status-once_example =
    sync_boot_status-once cluster stored cluster-Serves dated "Running" "TimedOut" "lab-a1" two_old
      (inl running_covers) recorded_first
