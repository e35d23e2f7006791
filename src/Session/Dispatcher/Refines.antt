-- ===== src/Session/Dispatcher/Refines.antt =====
-- dispatcher.go: two providers that keep the contract make, through the dispatcher, one provider
-- that keeps it.
use cledyu.Base.{
  count, ℕ, ◌+◌, String, ◌≡◌, List, refl, Option, none, some, arith, str_eq, count-append,
  length-append, if◌then◌else◌,
}
use cledyu.Session.{Err, Provider, BootInit}
use cledyu.Session.Contract.{
  View, GetSpec, DeleteSpec, FindSpec, CountSpec, CreateSpec, ReapSpec, Implements,
}
use cledyu.Session.Dispatcher.{
  Dispatcher, dispatcher, create, get, delete, find_active_by_user, count_active_sessions,
  reap_both,
}

-- The sessions of both, the on-premises ones first.
abbrev pub joined : View → View → View
joined v w = record {
  session = λ id. elim (v.session id) [ some s ↦ some s | none ↦ w.session id ];
  active_of = λ uid. if str_eq (v.active_of uid) "" then w.active_of uid else v.active_of uid;
  active = v.active + w.active;
  runs = λ id. elim (v.session id) [ some s ↦ v.runs id | none ↦ w.runs id ];
  live = λ id. v.live id + w.live id;
}

module _ {V W : Type 0} (p : Provider V) (o : Provider W) (cap : ℕ) (view_p : V → View)
    (view_o : W → View) (ip : Implements p view_p) (io : Implements o view_o) where
  abbrev both : Dispatcher V W
  both = record { onprem = p; overflow = some o; onprem_cap = cap }

  abbrev view_both : V × W → View
  view_both (v, w) = joined (view_p v) (view_o w)

  get_answer : (id : String) (s : V × W) → GetSpec ((view_both s).session id) (get both id s).0
  unfolding get
  get_answer id (v, w) = ground (arith, ip.get_answer id v, io.get_answer id w)

  get_keeps : (id : String) (s : V × W) → view_both (get both id s).1 ≡ view_both s
  unfolding get
  get_keeps id (v, w) = ground (arith, ip.get_keeps id v, io.get_keeps id w)

  delete_answer :
      (id : String) (s : V × W)
      → DeleteSpec (view_both s) (view_both (delete both id s).1) id (delete both id s).0
  unfolding delete
  delete_answer id (v, w) = ground (arith, ip.delete_answer id v, io.delete_answer id w)

  find_answer :
      (uid : String) (s : V × W)
      → FindSpec ((view_both s).active_of uid) (find_active_by_user both uid s).0
  unfolding find_active_by_user
  find_answer uid (v, w) = ground (arith, ip.find_answer uid v, io.find_answer uid w)

  find_keeps :
      (uid : String) (s : V × W) → view_both (find_active_by_user both uid s).1 ≡ view_both s
  unfolding find_active_by_user
  find_keeps uid (v, w) = ground (arith, ip.find_keeps uid v, io.find_keeps uid w)

  count_answer : (s : V × W) → CountSpec (view_both s).active (count_active_sessions both s).0
  unfolding count_active_sessions
  count_answer (v, w) = ground (arith, ip.count_answer v, io.count_answer w)

  count_keeps : (s : V × W) → view_both (count_active_sessions both s).1 ≡ view_both s
  unfolding count_active_sessions
  count_keeps (v, w) = ground (arith, ip.count_keeps v, io.count_keeps w)

  create_answer :
      (sid lab uid : String) (init : BootInit) (s : V × W)
      → CreateSpec
          (view_both s).active
          (view_both (create both sid lab uid init s).1).active
          sid
          lab
          uid
          (create both sid lab uid init s).0
  unfolding create
  create_answer sid lab uid init (v, w) =
      let v' : V = (p.count_active_sessions v).1 in
      ground (
        arith,
        ip.count_keeps v,
        ip.create_answer sid lab uid init v',
        io.create_answer sid lab uid init w,
      )

  -- What two reapers report, as one: every ID as often as in both, and the second one's error if it has one.
  abbrev pub Joins :
      List String × Option Err → List String × Option Err → List String × Option Err → Type 0
  Joins r1 r2 r =
      ((x : String) → count (str_eq x) r.0 ≡ count (str_eq x) r1.0 + count (str_eq x) r2.0)
      × ((e : Err) → r2.1 ≡ some e → r.1 ≡ some e)
      × (r2.1 ≡ none → r.1 ≡ r1.1)

  reap_both-Joins :
      (f : V → (List String × Option Err) × V) (g : Provider W → W → (List String × Option Err) × W)
      (v : V) (w : W)
      → Joins (f v).0 (g o w).0 (reap_both both f g (v, w)).0
  unfolding reap_both
  reap_both-Joins f g v w =
      (λ x. count-append (str_eq x) (f v).0.0 (g o w).0.0, λ e h. rw h refl, λ h. rw h refl)

  reap_answer :
      (f : V → (List String × Option Err) × V) (g : Provider W → W → (List String × Option Err) × W)
      (v : V) (w : W)
      → ReapSpec (view_p v) (view_p (f v).1) (f v).0.0
      → ReapSpec (view_o w) (view_o (g o w).1) (g o w).0.0
      → ReapSpec
          (view_both (v, w))
          (view_both (reap_both both f g (v, w)).1)
          (reap_both both f g (v, w)).0.0
  unfolding reap_both
  reap_answer f g v w (hf, mf) (hg, mg) = (
    omega (arith, hf, hg, length-append (f v).0.0 (g o w).0.0),
    λ x. omega (arith, mf x, mg x, count-append (str_eq x) (f v).0.0 (g o w).0.0),
  )

  keeps : Implements (dispatcher both) view_both
  unfolding dispatcher
  keeps = record {
    get_answer = get_answer;
    get_keeps = get_keeps;
    delete_answer = delete_answer;
    find_answer = find_answer;
    find_keeps = find_keeps;
    count_answer = count_answer;
    count_keeps = count_keeps;
    create_answer = create_answer;
    stuck_answer = λ timeout s.
        reap_answer (p.reap_stuck_sessions timeout) (λ q. q.reap_stuck_sessions timeout) s.0 s.1
          (ip.stuck_answer timeout s.0) (io.stuck_answer timeout s.1);
    expired_answer = λ s.
        reap_answer p.reap_expired_sessions (λ q. q.reap_expired_sessions) s.0 s.1
          (ip.expired_answer s.0) (io.expired_answer s.1);
  }

  -- Where both providers keep the contract over their views, the dispatcher of the two keeps it over the
  -- joined view, whatever its cap. Its reapers report every session ID as often as both providers do,
  -- with the overflow's error if there is one, and else the on-premises one.
  pub dispatcher-Implements :
      Implements (dispatcher both) view_both
      × ((timeout : ℕ) (v : V) (w : W)
          → Joins
              (p.reap_stuck_sessions timeout v).0
              (o.reap_stuck_sessions timeout w).0
              ((dispatcher both).reap_stuck_sessions timeout (v, w)).0)
      × ((v : V) (w : W)
          → Joins
              (p.reap_expired_sessions v).0
              (o.reap_expired_sessions w).0
              ((dispatcher both).reap_expired_sessions (v, w)).0)
  unfolding dispatcher
  dispatcher-Implements = (
    keeps,
    λ timeout v w.
        reap_both-Joins (p.reap_stuck_sessions timeout) (λ q. q.reap_stuck_sessions timeout) v w,
    λ v w. reap_both-Joins p.reap_expired_sessions (λ q. q.reap_expired_sessions) v w,
  )
