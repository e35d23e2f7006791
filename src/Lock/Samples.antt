-- ===== src/Lock/Samples.antt =====
-- Instances of the theorems on a lock server with a clock, which keeps a value under each key.
use cledyu.Base.{
  ℕ, ◌+◌, ◌≤◌, String, ◌≡◌, refl, true, false, List, [], ◌∷◌, Option, none, some, arith, str_eq,
  str_eq_refl, str_eq_iff, if◌then◌else◌,
}
use cledyu.Lock.{Reply, set, Redis, acquire, redis_key}
use cledyu.Lock.Acquire.{SetSpec, Waits, Returns, acquire-Returns}
use cledyu.Lock.KeepOut.{Act, attempt, give_back, Keeps, KeptOut, acts-KeptOut}

abbrev Mem : Type 0
Mem = ℕ × (String → Option String)

abbrev put : String → Option String → (String → Option String) → String → Option String
put k v h j = if str_eq k j then v else h j

abbrev put_nx : String → String → Mem → Option String → Reply × Mem
put_nx k t w (some x) = (set false, w)
put_nx k t w none = (set true, (w.0, put k (some t) w.1))

abbrev server : Redis Mem
server = record {
  set_nx = λ k t ttl w. put_nx k t w (w.1 k);
  get = λ k w. w.1 k;
  del = λ k w. (w.0, put k none w.1);
  reaches = λ w. true;
  now = λ w. w.0;
  select = λ d w. (false, (w.0 + d, w.1));
  rand_token = λ w. ("0a", w);
}

put_nx-SetSpec :
    (k t : String) (w : Mem) (o : Option String)
    → w.1 k ≡ o
    → let r : Reply × Mem = put_nx k t w o in SetSpec t (w.1 k) (r.1.1 k) r.0
put_nx-SetSpec k t w (some x) h = tt
put_nx-SetSpec k t w none h = (h, rw (str_eq_refl k) refl)

put_nx-clock : (k t : String) (w : Mem) (o : Option String) → w.0 ≤ (put_nx k t w o).1.0
put_nx-clock k t w (some x) = omega arith
put_nx-clock k t w none = omega arith

put_nx-keeps :
    (k t j x : String) (w : Mem) (o : Option String)
    → w.1 k ≡ o
    → w.1 j ≡ some x
    → (put_nx k t w o).1.1 j ≡ some x
put_nx-keeps k t j x w (some y) h a = a
put_nx-keeps k t j x w none h a = ground (arith, h, a, str_eq_iff k j)

server-Waits : Waits server
server-Waits = record {
  set_effect = λ k t ttl w. put_nx-SetSpec k t w (w.1 k) refl;
  set_clock = λ k t ttl w. put_nx-clock k t w (w.1 k);
  select_clock = λ d w. omega arith;
}

server-Keeps : Keeps server
server-Keeps = record {
  set_keeps = λ k t ttl j x w a. put_nx-keeps k t j x w (w.1 k) refl a;
  del_others = λ k j w d. ground (arith, d);
}

-- The lock of "u1" is held by another replica, which has the token "ff".
abbrev busy : Mem
busy = (0, put (redis_key "u1") (some "ff") (λ j. none))

acquire-Returns_example : Returns server (redis_key "u1") "0a" (acquire server 42 "u1" busy)
acquire-Returns_example = acquire-Returns server server-Waits "u1" busy

abbrev others : List Act
others =
    attempt (redis_key "u1") "0a"
    ∷ give_back (redis_key "u1") "0a"
    ∷ attempt (redis_key "u2") "0b"
    ∷ []

others_differ : (str_eq "0a" "ff" ≡ false) × (str_eq "0b" "ff" ≡ false)
unfolding str_eq
others_differ = (refl, refl)

acts-KeptOut_example : KeptOut server (redis_key "u1") "ff" others busy
acts-KeptOut_example =
    acts-KeptOut server server-Waits server-Keeps (redis_key "u1") "ff" others busy
      (others_differ.0, (others_differ.0, (others_differ.1, tt)))
      (rw (str_eq_refl (redis_key "u1")) refl)
