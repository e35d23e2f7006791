-- ===== src/Kubevirt/Walk.antt =====
-- The loop of the two reapers: as many active namespaces go as session IDs are reported.
use cledyu.Base.{
  String, str_eq, ◌+◌, ◌≤◌, length, ℕ, ◌≡◌, refl, sym, subst, inl, inr, Bool, false, List, [], ◌∷◌,
  arith, keep, count, All-found, keep-NoTwins, Ahead, Ahead-keeps, keep-Ahead,
}
use cledyu.Kubevirt.{Config, namespace_deleting, list_sessions}
use cledyu.Kubevirt.Cluster.{Namespace, Kube}
use cledyu.Kubevirt.Boot.{State}
use cledyu.Kubevirt.Manager.{
  reap_stuck_one, reap_expired_one, reap_each, reap_listed, reap_stuck_sessions,
  reap_expired_sessions,
}
use cledyu.Kubevirt.Laws.{name_of, is_managed, is_active, Distinct, ListSpec, Serves}
use cledyu.Kubevirt.Live.{goes_by, active_among}
use cledyu.Kubevirt.Synced.{Answer-cases}
use cledyu.Kubevirt.Reap.{Reaps, IsStep, reap_stuck_one-IsStep, reap_expired_one-IsStep}

-- What the loop may do, with the IDs that it reports.
abbrev pub Fewer : List Namespace → List Namespace → List String → Type 0
Fewer l l' ids =
    (count is_active l' + length ids ≤ count is_active l)
    × ((x : String)
        → count (active_among (goes_by x)) l' + count (str_eq x) ids
          ≤ count (active_among (goes_by x)) l)

abbrev IsOpen : Namespace → Type 0
IsOpen n = namespace_deleting n ≡ false

module _ {W : Type 0} (k : Kube W) (cfg : Config) (stored : W → List Namespace)
    (sv : Serves k stored) where
  reap_each-Fewer :
      (one : Namespace → State W → Bool × State W) (r : List Namespace) (s : State W)
      → IsStep k cfg stored sv one
      → Distinct r
      → Ahead name_of is_active IsOpen r (stored s.cluster)
      → Fewer
          (stored s.cluster)
          (stored (reap_each k cfg one r s).1.cluster)
          (reap_each k cfg one r s).0
  unfolding reap_each
  reap_each-Fewer one [] s step d h = (omega arith, λ x. omega arith)
  reap_each-Fewer one (n ∷ r) s step (d, ds) (h, hs) =
      let dr : Reaps n.name (one n s).0 (stored s.cluster) (stored (one n s).1.cluster) =
        step n s h in
      let rest : Fewer (stored (one n s).1.cluster)
          (stored (reap_each k cfg one r (one n s).1).1.cluster)
          (reap_each k cfg one r (one n s).1).0 =
        reap_each-Fewer one r (one n s).1 step ds
          (Ahead-keeps name_of is_active IsOpen n.name r _ _ d dr.drops.others hs) in
      (ground (arith, dr.drops.fewer, rest.0), λ x. ground (arith, dr.among (goes_by x), rest.1 x))

  reap_listed-Fewer :
      (one : Namespace → State W → Bool × State W) (s : State W)
      → IsStep k cfg stored sv one
      → Fewer
          (stored s.cluster)
          (stored (reap_listed k cfg one s).1.cluster)
          (reap_listed k cfg one s).0.0
  unfolding reap_listed list_sessions
  reap_listed-Fewer one s step = elim (Answer-cases (list_sessions k s.cluster)) [
    | inl (l, e) ↦
        let all : l ≡ keep is_managed (stored s.cluster) =
          subst (ListSpec (stored s.cluster)) e (sv.list_answer s.cluster) in
        rw (e, reap_listed)
          (reap_each-Fewer one l s step
            (subst Distinct (sym all)
              (keep-NoTwins name_of is_active is_managed _ (sv.distinct s.cluster)))
            (subst (λ r. Ahead name_of is_active IsOpen r (stored s.cluster)) (sym all)
              (keep-Ahead name_of is_active IsOpen is_managed _ _ (λ n e d. rw (e, d) refl)
                (All-found name_of is_active _ (sv.distinct s.cluster)))))
    | inr (f, e) ↦ rw (e, reap_listed) (omega arith, λ x. omega arith)
  ]

  pub reap_stuck_sessions-Fewer :
      (timeout : ℕ) (s : State W)
      → Fewer
          (stored s.cluster)
          (stored (reap_stuck_sessions k cfg timeout s).1.cluster)
          (reap_stuck_sessions k cfg timeout s).0.0
  unfolding reap_stuck_sessions
  reap_stuck_sessions-Fewer timeout s =
      reap_listed-Fewer (reap_stuck_one k cfg (k.now s.cluster) timeout) s
        (reap_stuck_one-IsStep k cfg stored sv (k.now s.cluster) timeout)

  pub reap_expired_sessions-Fewer :
      (s : State W)
      → Fewer
          (stored s.cluster)
          (stored (reap_expired_sessions k cfg s).1.cluster)
          (reap_expired_sessions k cfg s).0.0
  unfolding reap_expired_sessions
  reap_expired_sessions-Fewer s =
      reap_listed-Fewer (reap_expired_one k cfg (k.now s.cluster)) s
        (reap_expired_one-IsStep k cfg stored sv (k.now s.cluster))
