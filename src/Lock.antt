-- ===== src/Lock.antt =====
-- apps/api/internal/lock/redis.go: the distributed lock of the API's replicas. The Redis client, the
-- clock, the random source and the wait of the caller's context are a parameter over a state `W`.
-- Times are in milliseconds. The release function that Acquire returns is the token it has captured.
pub mod Acquire
pub mod KeepOut
mod Samples
use Prim.Native.String.{◌++◌}
use cledyu.Base.{
  ℕ, zero, suc, ◌+◌, String, Bool, true, false, List, [], ◌∷◌, Option, none, some, ltb, str_eq,
  if◌then◌else◌,
}

abbrev pub lock_ttl : ℕ
lock_ttl = 30000

abbrev pub redis_key : String → String
redis_key key = "cledyu:lock:" ++ key

abbrev pub lock_retry : ℕ
lock_retry = 50

abbrev pub lock_max_wait : ℕ
lock_max_wait = 2000

-- What SETNX answers.
pub data Reply : Type 0 where
  set : Bool → Reply
  failed : Reply

-- `select` waits for the given time, and answers true when the context was done before.
-- `reaches` is whether the release script arrives at the server in time.
pub record Redis (W : Type 0) : Type 0 where
  pub set_nx : String → String → ℕ → W → Reply × W
  pub get : String → W → Option String
  pub del : String → W → W
  pub reaches : W → Bool
  pub now : W → ℕ
  pub select : ℕ → W → Bool × W
  pub rand_token : W → String × W

abbrev pub holds : String → Option String → Bool
holds t none = false
holds t (some x) = str_eq x t

module _ {W : Type 0} (r : Redis W) where
  -- what Acquire returns, where the fuel lasts
  abbrev pub Out : Type 0
  Out = Option (Option String × W)

  abbrev pub waited : (W → Out) → Bool × W → Out
  waited again (true, w) = some (none, w)
  waited again (false, w) = again w

  abbrev pub retry : ℕ → (W → Out) → W → Out
  retry deadline again w =
      if ltb deadline (r.now w) then some (none, w) else waited again (r.select lock_retry w)

  abbrev pub answered : String → ℕ → (W → Out) → Reply × W → Out
  answered token deadline again (failed, w) = some (none, w)
  answered token deadline again (set true, w) = some (some token, w)
  answered token deadline again (set false, w) = retry deadline again w

  unfoldable pub acquire_loop : ℕ → String → String → ℕ → W → Out
  acquire_loop zero key token deadline w = none
  acquire_loop (suc fuel) key token deadline w =
      answered token deadline (acquire_loop fuel key token deadline) (r.set_nx key token lock_ttl w)

  unfoldable pub acquire : ℕ → String → W → Out
  acquire fuel key w =
      let (token, w') = r.rand_token w in
      acquire_loop fuel (redis_key key) token (r.now w' + lock_max_wait) w'

  abbrev pub release_script : String → String → W → W
  release_script key token w = if holds token (r.get key w) then r.del key w else w

  unfoldable pub release : String → String → W → W
  release key token w = if r.reaches w then release_script key token w else w
