-- ===== src/Session/Samples.antt =====
-- A provider in memory, which keeps the contract, and instances of the dispatcher's theorems.
use cledyu.Base.{
  ℕ, true, suc, count, String, ◌≡◌, refl, ◌≤◌, Bool, List, [], ◌∷◌, Option, none, some, arith,
  str_eq, length, find, Option-cases, inl, inr, if◌then◌else◌,
}
use cledyu.Session.{
  Err, not_found, Result, ok, err, Session, Provider, BootInit, provisioning, kubevirt,
}
use cledyu.Session.Contract.{View, DeleteSpec, GetSpec, Implements}
use cledyu.Session.Dispatcher.{Dispatcher, dispatcher, create}
use cledyu.Session.Dispatcher.Refines.{Joins, joined, dispatcher-Implements}
use cledyu.Session.Dispatcher.Room.{Call, creates, run, step, run-onprem-le-cap}

abbrev has_id : String → Session → Bool
has_id id s = str_eq s.id id

abbrev id_or_empty : Option Session → String
id_or_empty none = ""
id_or_empty (some s) = s.id

abbrev is_there : Option Session → Bool
is_there none = Bool.false
is_there (some s) = Bool.true

abbrev found : Option Session → Result Session
found none = err not_found
found (some s) = ok s

abbrev without : String → List Session → List Session
without id [] = []
without id (s ∷ l) = if str_eq s.id id then l else s ∷ without id l

abbrev delete_answer : Option Session → String → List Session → Option Err × List Session
delete_answer none id l = (some not_found, l)
delete_answer (some s) id l = (none, without id l)

abbrev pub new_session : String → String → String → Session
new_session sid lab uid = record {
  id = sid;
  lab_id = lab;
  user_id = uid;
  status = provisioning;
  provisioning_stage = "";
  started_at = 0;
  expires_at = 100;
  provider = kubevirt;
  instance_id = "";
  region = "";
  tailnet_enabled = Bool.false;
}

abbrev pub memory : Provider (List Session)
memory = record {
  create = λ sid lab uid init l. (ok (new_session sid lab uid), new_session sid lab uid ∷ l);
  get = λ id l. (found (find (has_id id) l), l);
  delete = λ id l. delete_answer (find (has_id id) l) id l;
  find_active_by_user = λ uid l. (ok (id_or_empty (find (λ s. str_eq s.user_id uid) l)), l);
  count_active_sessions = λ l. (ok (length l), l);
  reap_stuck_sessions = λ t l. (([], none), l);
  reap_expired_sessions = λ l. (([], none), l);
  vmi_address = λ id l. (err not_found, l);
  capacity = 2;
}

abbrev pub memory_view : List Session → View
memory_view l = record {
  session = λ id. find (has_id id) l;
  active_of = λ uid. id_or_empty (find (λ s. str_eq s.user_id uid) l);
  active = length l;
  runs = λ id. is_there (find (has_id id) l);
  live = λ id. count (has_id id) l;
}

length-without-le : (id : String) (l : List Session) → length (without id l) ≤ length l
length-without-le id [] = omega arith
length-without-le id (s ∷ l) = ground (arith, length-without-le id l)

length-without-lt :
    (id : String) (l : List Session)
    → is_there (find (has_id id) l) ≡ true
    → suc (length (without id l)) ≤ length l
length-without-lt id [] h = absurd (cc h)
length-without-lt id (s ∷ l) h = ground (arith, length-without-lt id l, length-without-le id l)

count-without-lt :
    (id : String) (l : List Session)
    → is_there (find (has_id id) l) ≡ true
    → suc (count (has_id id) (without id l)) ≤ count (has_id id) l
count-without-lt id [] h = absurd (cc h)
count-without-lt id (s ∷ l) h = ground (arith, count-without-lt id l)

memory_get :
    (id : String) (l : List Session) → GetSpec (find (has_id id) l) (found (find (has_id id) l))
memory_get id l = elim (Option-cases (find (has_id id) l)) [
  | inl e ↦ rw e refl
  | inr (s, e) ↦ rw e refl
]

memory_delete :
    (id : String) (l : List Session)
    → DeleteSpec (memory_view l) (memory_view (memory.delete id l).1) id (memory.delete id l).0
memory_delete id l = elim (Option-cases (find (has_id id) l)) [
  | inl e ↦ rw e (e, refl)
  | inr (s, e) ↦ rw e (
    ground arith,
    length-without-le id l,
    λ r. (length-without-lt id l (rw e refl), count-without-lt id l (rw e refl)),
  )
]

pub memory-Implements : Implements memory memory_view
memory-Implements = record {
  get_answer = memory_get;
  get_keeps = λ id l. refl;
  delete_answer = memory_delete;
  find_answer = λ uid l. refl;
  find_keeps = λ uid l. refl;
  count_answer = λ l. refl;
  count_keeps = λ l. refl;
  create_answer = λ sid lab uid init l. (refl, refl, refl, refl);
  stuck_answer = λ t l. (omega arith, λ x. omega arith);
  expired_answer = λ l. (omega arith, λ x. omega arith);
}

abbrev two : Dispatcher (List Session) (List Session)
two = record { onprem = memory; overflow = some memory; onprem_cap = 1 }

dispatcher-Implements_example :
    Implements (dispatcher two) (λ s. joined (memory_view s.0) (memory_view s.1))
    × ((timeout : ℕ) (v w : List Session)
        → Joins memory memory 1 memory_view memory_view memory-Implements memory-Implements
            (memory.reap_stuck_sessions timeout v).0
            (memory.reap_stuck_sessions timeout w).0
            ((dispatcher two).reap_stuck_sessions timeout (v, w)).0)
    × ((v w : List Session)
        → Joins memory memory 1 memory_view memory_view memory-Implements memory-Implements
            (memory.reap_expired_sessions v).0
            (memory.reap_expired_sessions w).0
            ((dispatcher two).reap_expired_sessions (v, w)).0)
dispatcher-Implements_example =
    dispatcher-Implements memory memory 1 memory_view memory_view memory-Implements
      memory-Implements

abbrev pub no_init : BootInit
no_init = record { packages = []; runcmd = [] }

abbrev two_calls : List Call
two_calls =
    creates "a1" "lab-k8s-basics" "u1" no_init ∷ creates "b2" "lab-k8s-basics" "u2" no_init ∷ []

run-onprem-le-cap_example :
    length
      (run
        (dispatcher (record { onprem = memory; overflow = some memory; onprem_cap = 1 }))
        two_calls
        ([], [])).0
    ≤ 1
run-onprem-le-cap_example =
    run-onprem-le-cap memory memory 1 memory_view memory-Implements (λ id l. refl) two_calls
      ([], []) (omega arith)

-- The second session bursts to the overflow.
second_bursts :
    length
      (run
        (dispatcher (record { onprem = memory; overflow = some memory; onprem_cap = 1 }))
        two_calls
        ([], [])).1
    ≡ 1
unfolding run step dispatcher create
second_bursts = refl
