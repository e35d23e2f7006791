-- ===== src/Session/Dispatcher/Room.antt =====
-- dispatcher.go: how full the on-premises provider gets, over any history of calls.
use cledyu.Base.{ℕ, ◌≤◌, String, ◌≡◌, List, [], ◌∷◌, some, Option, arith}
use cledyu.Session.{Err, Provider, BootInit}
use cledyu.Session.Contract.{View, ReapSpec, Implements}
use cledyu.Session.Dispatcher.{
  Dispatcher, create, get, delete, find_active_by_user, count_active_sessions, reap_both,
  vmi_address, dispatcher,
}

-- The calls that a client of a provider makes.
pub data Call : Type 0 where
  creates : String → String → String → BootInit → Call
  gets deletes finds addresses : String → Call
  counts reaps_expired : Call
  reaps_stuck : ℕ → Call

unfoldable pub step : {W : Type 0} → Provider W → Call → W → W
step p (creates sid lab uid init) w = (p.create sid lab uid init w).1
step p (gets id) w = (p.get id w).1
step p (deletes id) w = (p.delete id w).1
step p (finds uid) w = (p.find_active_by_user uid w).1
step p (addresses id) w = (p.vmi_address id w).1
step p counts w = (p.count_active_sessions w).1
step p reaps_expired w = (p.reap_expired_sessions w).1
step p (reaps_stuck timeout) w = (p.reap_stuck_sessions timeout w).1

unfoldable pub run : {W : Type 0} → Provider W → List Call → W → W
run p [] w = w
run p (c ∷ cs) w = run p cs (step p c w)

module _ {V W : Type 0} (p : Provider V) (o : Provider W) (cap : ℕ) (view : V → View)
    (ip : Implements p view)
    (address_keeps : (id : String) (v : V) → view (p.vmi_address id v).1 ≡ view v) where
  abbrev both : Dispatcher V W
  both = record { onprem = p; overflow = some o; onprem_cap = cap }

  abbrev Fits : V × W → Type 0
  Fits s = (view s.0).active ≤ cap

  create-Fits :
      (sid lab uid : String) (init : BootInit) (s : V × W)
      → Fits s
      → Fits (create both sid lab uid init s).1
  unfolding create
  create-Fits sid lab uid init (v, w) h =
      let v' : V = (p.count_active_sessions v).1 in
      ground (arith, ip.count_answer v, ip.count_keeps v, ip.create_answer sid lab uid init v')

  get-Fits : (id : String) (s : V × W) → Fits s → Fits (get both id s).1
  unfolding get
  get-Fits id (v, w) h = ground (arith, ip.get_keeps id v)

  delete-Fits : (id : String) (s : V × W) → Fits s → Fits (delete both id s).1
  unfolding delete
  delete-Fits id (v, w) h = ground (arith, ip.delete_answer id v)

  find-Fits : (uid : String) (s : V × W) → Fits s → Fits (find_active_by_user both uid s).1
  unfolding find_active_by_user
  find-Fits uid (v, w) h = ground (arith, ip.find_keeps uid v)

  count-Fits : (s : V × W) → Fits s → Fits (count_active_sessions both s).1
  unfolding count_active_sessions
  count-Fits (v, w) h = ground (arith, ip.count_keeps v)

  address-Fits : (id : String) (s : V × W) → Fits s → Fits (vmi_address both id s).1
  unfolding vmi_address
  address-Fits id (v, w) h = ground (arith, address_keeps id v)

  reap-Fits :
      (f : V → (List String × Option Err) × V) (g : Provider W → W → (List String × Option Err) × W)
      (v : V) (w : W)
      → ReapSpec (view v) (view (f v).1) (f v).0.0
      → Fits (v, w)
      → Fits (reap_both both f g (v, w)).1
  unfolding reap_both
  reap-Fits f g v w (r, m) h = omega (arith, r, h)

  step-Fits : (c : Call) (s : V × W) → Fits s → Fits (step (dispatcher both) c s)
  unfolding step dispatcher
  step-Fits (creates sid lab uid init) s h = create-Fits sid lab uid init s h
  step-Fits (gets id) s h = get-Fits id s h
  step-Fits (deletes id) s h = delete-Fits id s h
  step-Fits (finds uid) s h = find-Fits uid s h
  step-Fits (addresses id) s h = address-Fits id s h
  step-Fits counts s h = count-Fits s h
  step-Fits reaps_expired s h =
      reap-Fits p.reap_expired_sessions (λ q. q.reap_expired_sessions) s.0 s.1
        (ip.expired_answer s.0) h
  step-Fits (reaps_stuck timeout) s h =
      reap-Fits (p.reap_stuck_sessions timeout) (λ q. q.reap_stuck_sessions timeout) s.0 s.1
        (ip.stuck_answer timeout s.0) h

  -- With an overflow, no history of calls through the dispatcher takes the on-premises provider over
  -- its cap, failed creations included, if it is within it at the start. The provider keeps the
  -- contract, and an address lookup leaves its view alone.
  pub run-onprem-le-cap :
      (cs : List Call) (s : V × W)
      → (view s.0).active ≤ cap
      → (view (run (dispatcher both) cs s).0).active ≤ cap
  unfolding run
  run-onprem-le-cap [] s h = h
  run-onprem-le-cap (c ∷ cs) s h =
      run-onprem-le-cap cs (step (dispatcher both) c s) (step-Fits c s h)
