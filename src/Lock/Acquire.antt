-- ===== src/Lock/Acquire.antt =====
-- The loop of Acquire: it returns, and what it returns holds.
use cledyu.Base.{
  ℕ, zero, suc, ◌+◌, ◌*◌, ◌≤◌, ◌<◌, String, ◌≡◌, refl, Bool, true, false, inl, inr, Option, none,
  some, arith, ltb, Bool-cases,
}
use cledyu.Lock.{
  Reply, set, failed, Redis, lock_retry, lock_ttl, Out, waited, answered, acquire_loop, acquire,
  redis_key,
}

-- SETNX sets only a key that has no value.
abbrev pub SetSpec : String → Option String → Option String → Reply → Type 0
SetSpec token before after (set true) = (before ≡ none) × (after ≡ some token)
SetSpec token before after (set false) = Unit {0}
SetSpec token before after failed = Unit {0}

-- What a wait that was not cut short takes.
abbrev pub WaitSpec : ℕ → ℕ → ℕ → Bool → Type 0
WaitSpec d before after true = Unit {0}
WaitSpec d before after false = before + d ≤ after

pub record Waits {W : Type 0} (r : Redis W) : Type 0 where
  pub set_effect :
      (key token : String) (ttl : ℕ) (w : W)
      → SetSpec token
          (r.get key w)
          (r.get key (r.set_nx key token ttl w).1)
          (r.set_nx key token ttl w).0
  pub set_clock :
      (key token : String) (ttl : ℕ) (w : W) → r.now w ≤ r.now (r.set_nx key token ttl w).1
  pub select_clock :
      (d : ℕ) (w : W) → WaitSpec d (r.now w) (r.now (r.select d w).1) (r.select d w).0

module _ {W : Type 0} (r : Redis W) where
  -- The lock is held with the token where Acquire says so.
  abbrev pub Held : String → String → Option String × W → Type 0
  Held key token (none, w) = Unit {0}
  Held key token (some t, w) = (t ≡ token) × (r.get key w ≡ some token)

  abbrev pub Returns : String → String → Out r → Type 0
  Returns key token o = (a : Option String × W) × (o ≡ some a) × Held key token a

module _ {W : Type 0} (r : Redis W) (ws : Waits r) where
  waited-Returns :
      (key token : String) (again : W → Out r) (before d : ℕ) (a : Bool × W)
      → WaitSpec d before (r.now a.1) a.0
      → (before + d ≤ r.now a.1 → Returns r key token (again a.1))
      → Returns r key token (waited r again a)
  waited-Returns key token again before d (true, w) h k = ((none, w), refl, tt)
  waited-Returns key token again before d (false, w) h k = k h

  answered-Returns :
      (key token : String) (deadline : ℕ) (again : W → Out r) (before : Option String)
      (a : Reply × W)
      → SetSpec token before (r.get key a.1) a.0
      → ((w : W)
          → r.now a.1 + lock_retry ≤ r.now w
          → r.now a.1 ≤ deadline
          → Returns r key token (again w))
      → Returns r key token (answered r token deadline again a)
  answered-Returns key token deadline again before (failed, w) h k = ((none, w), refl, tt)
  answered-Returns key token deadline again before (set true, w) h k =
      ((some token, w), refl, (refl, h.1))
  answered-Returns key token deadline again before (set false, w) h k =
      elim (Bool-cases (ltb deadline (r.now w))) [
        | inl late ↦ rw late ((none, w), refl, tt)
        | inr early ↦ rw early (
            waited-Returns key token again (r.now w) lock_retry (r.select lock_retry w)
              (ws.select_clock lock_retry w) (λ later. k _ later (ground (arith, early))))
      ]

  loop-Returns :
      (n : ℕ) (key token : String) (deadline : ℕ) (w : W)
      → deadline < r.now w + n * lock_retry
      → Returns r key token (acquire_loop r (suc n) key token deadline w)
  unfolding acquire_loop
  loop-Returns zero key token deadline w h =
      answered-Returns key token deadline _ _ _ (ws.set_effect key token lock_ttl w)
        (λ w' later early. absurd (omega (arith, h, early, ws.set_clock key token lock_ttl w)))
  loop-Returns (suc n) key token deadline w h =
      answered-Returns key token deadline _ _ _ (ws.set_effect key token lock_ttl w)
        (λ w' later early.
          loop-Returns n key token deadline w'
            (omega (arith, h, later, ws.set_clock key token lock_ttl w)))

  -- On a client whose SETNX sets only a free key and whose waits take the time they are asked for, Acquire
  -- returns after at most 42 tries, and where it returns ok, the key has the caller's token.
  pub acquire-Returns :
      (key : String) (w : W) → Returns r (redis_key key) (r.rand_token w).0 (acquire r 42 key w)
  unfolding acquire
  acquire-Returns key w = loop-Returns 41 (redis_key key) _ _ (r.rand_token w).1 (omega arith)
