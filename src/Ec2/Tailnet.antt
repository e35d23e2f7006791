-- ===== src/Ec2/Tailnet.antt =====
-- provisioner.go: who can reach a session over the tailnet.
use cledyu.Base.{
  ℕ, String, ◌≡◌, refl, ap, subst, ◌∙◌, Bool, true, false, not, ◌&&◌, Option, none, some, arith,
  str_eq, if◌then◌else◌,
}
use cledyu.Session.{
  not_found, Result, ok, err, Session, Status, provisioning, ready, failed as failed_status,
  BootInit,
}
use cledyu.Kubevirt.Boot.{State}
use cledyu.Ec2.{
  Config, find_tag, is_running, state_status, instance_status, tailnet_hostname,
  session_tailnet_enabled,
}
use cledyu.Ec2.Cloud.{Reply, got, failed, Instance, Services}
use cledyu.Ec2.Provisioner.{
  resolve_session_auth_key, run_input, minted_key, instance_to_session, answered, get, vmi_address,
  found, reachable_at,
}
use cledyu.Ec2.Laws.{launched}

abbrev pub is_ready : Status → Bool
is_ready ready = true
is_ready provisioning = false
is_ready failed_status = false

ready-running : (i : Instance) → is_ready (instance_status i) ≡ is_running i
unfolding state_status
ready-running i = ground arith

joined_tag : (b : Bool) → str_eq (if b then "0" else "1") "1" ≡ not b
unfolding str_eq
joined_tag true = refl
joined_tag false = refl

no_key_false : not (str_eq "" "") ≡ false
unfolding str_eq
no_key_false = refl

module _ {W : Type 0} (c : Services W) (cfg : Config) where
  abbrev pub reach : String → Session → Result String
  reach id x =
      if is_ready x.status && x.tailnet_enabled then ok (tailnet_hostname cfg id) else err not_found

  abbrev answer_reach : String → Result Session → Result String
  answer_reach id (ok x) = reach id x
  answer_reach id (err e) = err e

  answered-reach :
      (id : String) (s : State W) (r : Reply (Option Instance)) (x : Session)
      → (answered c cfg s r).0 ≡ ok x
      → found (reachable_at c cfg id) (err not_found) r ≡ reach id x
  unfolding answered instance_to_session
  answered-reach id s (failed e) x h = ground arith
  answered-reach id s (got none) x h = ground arith
  answered-reach id s (got (some i)) x h =
      subst (λ r. reachable_at c cfg id i ≡ answer_reach id r) h (ground (arith, ready-running i))

  -- VMIAddress and Get agree: for a session that Get finds, there is an address exactly where Get
  -- shows it as ready and on the tailnet, and it is the session's host name.
  pub vmi_address-iff-get :
      (id : String) (s : State W) (x : Session)
      → (get c cfg id s).0 ≡ ok x
      → vmi_address c cfg id s.cluster ≡ reach id x
  unfolding get vmi_address
  vmi_address-iff-get id s x h = answered-reach id s _ x h

  launched-tailnet :
      (sid lab uid key iid : String) (init : BootInit) (now : ℕ)
      → session_tailnet_enabled cfg (launched (run_input c cfg sid lab uid init key now) iid)
        ≡ not (str_eq key "")
  unfolding run_input find_tag str_eq session_tailnet_enabled
  launched-tailnet sid lab uid key iid init now = joined_tag (str_eq key "")

  -- With a minter, a session for which no key could be minted gets no key at all, not the static one,
  -- and is never shown as on the tailnet, whatever the static key.
  pub run_input-fail_secure :
      (sid lab uid e : String) (init : BootInit) (now : ℕ) (s : State W)
      → cfg.mints ≡ true
      → (c.mint s.cluster).0 ≡ failed e
      → let key : String = (resolve_session_auth_key c cfg s).0 in
        (run_input c cfg sid lab uid init key now).user_data.auth_key ≡ ""
        × ((iid : String)
            → session_tailnet_enabled cfg (launched (run_input c cfg sid lab uid init key now) iid)
              ≡ false)
  unfolding resolve_session_auth_key run_input
  run_input-fail_secure sid lab uid e init now s m f =
      let no_key : (resolve_session_auth_key c cfg s).0 ≡ "" =
        rw (m, resolve_session_auth_key) (ap minted_key f) in
      (
        no_key,
        λ iid.
            launched-tailnet sid lab uid (resolve_session_auth_key c cfg s).0 iid init now
            ∙ ap (λ k. not (str_eq k "")) no_key
            ∙ no_key_false,
      )
