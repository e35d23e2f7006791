-- ===== src/Kubevirt/Laws.antt =====
-- What the manager relies on of the Kubernetes API: a record of hypotheses on the calls, over the
-- list of the namespaces that the cluster has.
use cledyu.Base.{
  ℕ, String, ◌≡◌, ◌≢◌, Bool, false, not, ◌&&◌, List, ◌∷◌, ◌++◌, map, Option, none, some, GoMap,
  str_eq, if◌then◌else◌, find, keep, keyed, NoTwins,
}
use cledyu.Kubevirt.{namespace_deleting}
use cledyu.Kubevirt.Cluster.{
  Fault, absent, fault, Answer, got, failed, Namespace, NewNamespace, UserData, VirtualMachine,
  Kube,
}
use cledyu.Kubevirt.Boot.{label_managed_by, managed_by_value, text_at}

abbrev pub is_managed : Namespace → Bool
is_managed n = str_eq (text_at label_managed_by n.labels) managed_by_value

abbrev pub is_active : Namespace → Bool
is_active n = is_managed n && not (namespace_deleting n)

abbrev pub name_of : Namespace → String
name_of n = n.name

abbrev pub named : String → Namespace → Bool
named = keyed name_of is_active

-- A deletion only sets the timestamp: the finalizer keeps the namespace until it is empty.
abbrev pub marked : String → ℕ → Namespace → Namespace
marked ns t n = if str_eq n.name ns then record n { deletion_timestamp = some t } else n

abbrev pub annotated : String → GoMap String → Namespace → Namespace
annotated ns a n = if str_eq n.name ns then record n { annotations = a } else n

abbrev pub started : NewNamespace → ℕ → Namespace
started n t = record {
  name = n.name;
  labels = n.labels;
  annotations = n.annotations;
  phase = "Active";
  deletion_timestamp = none;
  creation_timestamp = t;
}

-- No two namespaces have one name.
abbrev pub Distinct : List Namespace → Type 0
Distinct = NoTwins name_of is_active

abbrev pub ListSpec : List Namespace → Answer (List Namespace) → Type 0
ListSpec l (got r) = r ≡ keep is_managed l
ListSpec l (failed e) = Unit {0}

abbrev pub ReadSpec : Option Namespace → Answer Namespace → Type 0
ReadSpec o (got n) = o ≡ some n
ReadSpec o (failed (absent e)) = o ≡ none
ReadSpec o (failed (fault e)) = Unit {0}

-- A new namespace is put somewhere into the list.
abbrev pub CreateSpec : NewNamespace → List Namespace → List Namespace → Option Fault → Type 0
CreateSpec n l l' (some e) = l' ≡ l
CreateSpec n l l' none =
    (a : List Namespace) × (b : List Namespace) × (t : ℕ) × (l ≡ a ++ b)
    × (l' ≡ a ++ started n t ∷ b)

abbrev pub UpdateSpec :
    String → GoMap String → List Namespace → List Namespace → Option Fault → Type 0
UpdateSpec ns a l l' (some e) = l' ≡ l
UpdateSpec ns a l l' none = l' ≡ map (annotated ns a) l

abbrev pub DeleteSpec : String → List Namespace → List Namespace → Option Fault → Type 0
DeleteSpec ns l l' (some (absent e)) = find (named ns) l ≡ none
DeleteSpec ns l l' (some (fault e)) = Unit {0}
DeleteSpec ns l l' none = (find (named ns) l ≢ none) × ((t : ℕ) × (l' ≡ map (marked ns t) l))

-- A refused deletion leaves the cluster as it was.
abbrev pub Refused : {W : Type 0} → W → W → Option Fault → Type 0
Refused w w' (some e) = w' ≡ w
Refused w w' none = Unit {0}

pub record Serves {W : Type 0} (k : Kube W) (stored : W → List Namespace) : Type 0 where
  pub distinct : (w : W) → Distinct (stored w)
  pub list_answer :
      (w : W) → ListSpec (stored w) (k.list_namespaces label_managed_by managed_by_value w)
  pub get_answer :
      (ns : String) (w : W) → ReadSpec (find (named ns) (stored w)) (k.get_namespace ns w)
  pub create_effect :
      (n : NewNamespace) (w : W)
      → CreateSpec n (stored w) (stored (k.create_namespace n w).1) (k.create_namespace n w).0
  pub secret_keeps :
      (ns name : String) (d : UserData) (w : W) → stored (k.create_secret ns name d w).1 ≡ stored w
  pub vm_keeps : (v : VirtualMachine) (w : W) → stored (k.create_vm v w).1 ≡ stored w
  -- an update of the annotations of a namespace as it was read
  pub update_effect :
      (ns : String) (n : Namespace) (a : GoMap String) (w : W)
      → find (named ns) (stored w) ≡ some n
      → UpdateSpec ns a
          (stored w)
          (stored (k.update_namespace (record n { annotations = a }) w).1)
          (k.update_namespace (record n { annotations = a }) w).0
  pub update_vmi :
      (n : Namespace) (ns vmi : String) (w : W)
      → k.get_vmi ns vmi (k.update_namespace n w).1 ≡ k.get_vmi ns vmi w
  pub update_pvc :
      (n : Namespace) (ns pvc : String) (w : W)
      → k.get_pvc ns pvc (k.update_namespace n w).1 ≡ k.get_pvc ns pvc w
  pub update_now : (n : Namespace) (w : W) → k.now (k.update_namespace n w).1 ≡ k.now w
  pub delete_effect :
      (ns : String) (w : W)
      → DeleteSpec ns (stored w) (stored (k.delete_namespace ns w).1) (k.delete_namespace ns w).0
  pub delete_refused :
      (ns : String) (w : W) → Refused w (k.delete_namespace ns w).1 (k.delete_namespace ns w).0
  -- the deletion of another namespace
  pub delete_vmi :
      (other ns vmi : String) (w : W)
      → str_eq other ns ≡ false
      → k.get_vmi ns vmi (k.delete_namespace other w).1 ≡ k.get_vmi ns vmi w
