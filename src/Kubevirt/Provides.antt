-- ===== src/Kubevirt/Provides.antt =====
-- The manager keeps the session contract.
use cledyu.Base.{suc, String, ◌≡◌, List, Option, none, some, count}
use cledyu.Session.{failed as failed_status}
use cledyu.Session.Contract as Contract
use cledyu.Session.Contract.{View}
use cledyu.Kubevirt.{Config, namespace_of}
use cledyu.Kubevirt.Cluster.{Fault, Answer, Namespace, Vmi, Kube}
use cledyu.Kubevirt.Boot.{State}
use cledyu.Kubevirt.Laws as Laws
use cledyu.Kubevirt.Laws.{is_active, Serves}
use cledyu.Kubevirt.Synced.{Synced}
use cledyu.Kubevirt.View.{view}

module _ {W : Type 0} (k : Kube W) (cfg : Config) (stored : W → List Namespace)
    (sv : Serves k stored) where
  abbrev see : State W → View
  see s = view k cfg stored s.cluster

  abbrev vmi_of : String → W → Answer Vmi
  vmi_of id = k.get_vmi (namespace_of id) "session-vm"

  abbrev Grown : Option Fault → List Namespace → List Namespace → Type 0
  Grown (some f) l l' = count is_active l' ≡ count is_active l
  Grown none l l' = count is_active l' ≡ suc (count is_active l)
