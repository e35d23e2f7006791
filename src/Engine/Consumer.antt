-- ===== src/Engine/Consumer.antt =====
-- apps/validation-engine/internal/consumer: `Run` and `publishToDLQ`. Kafka (the reader and the writer
-- of the dead letter queue), the decoding of JSON and the handler are parameters.
pub mod Story
pub mod Samples
use cledyu.Base.{ℕ, zero, suc, Bool, true, false, List, [], ◌∷◌, Option, none, some, if◌then◌else◌}
use cledyu.Engine.{Text, ValidationRequest}
use cledyu.Engine.Handler.{Handled, done, failed, fatal}

pub record Message : Type 0 where
  pub key : Text
  pub value : Text

-- What `FetchMessage` returns: a message, an error after the context was cancelled, another error.
pub data Fetch : Type 0 where
  message : Message → Fetch
  cancelled fetch_error : Fetch

-- The two calls answer whether they succeeded.
pub record Broker (W : Type 0) : Type 0 where
  pub write_dlq : Message → W → Bool × W
  pub commit : Message → W → Bool × W

-- Where the loop is: it waits for the next message, or it ended.
pub data Ended : Type 0 where
  waiting stopped read_failed infrastructure : Ended

abbrev pub dlq_max_retries : ℕ
dlq_max_retries = 3

module _ {W : Type 0} (decode : Text → Option ValidationRequest) (broker : Broker W)
    (handler : ValidationRequest → W → Handled × W) where
  -- The attempts that are left.
  unfoldable pub write_tries : ℕ → Message → W → W
  write_tries zero m w = w
  write_tries (suc k) m w =
      let (ok, w1) = broker.write_dlq m w in
      let rest = write_tries k m w1 in if ok then w1 else rest

  -- `publishToDLQ`
  abbrev pub publish_to_dlq : Message → W → W
  publish_to_dlq m w = write_tries dlq_max_retries m w

  -- A commit that fails is logged.
  abbrev pub commit_message : Message → W → W
  commit_message m w = (broker.commit m w).1

  abbrev pub after_handler : Message → Handled × W → Bool × W
  after_handler m (done, w) = (true, commit_message m w)
  after_handler m (failed, w) = (true, commit_message m (publish_to_dlq m w))
  after_handler m (fatal, w) = (false, w)

  abbrev pub consume_decoded : Message → Option ValidationRequest → W → Bool × W
  consume_decoded m none w = (true, commit_message m (publish_to_dlq m w))
  consume_decoded m (some req) w = after_handler m (handler req w)

  -- The loop's body behind the fetch; it answers whether the loop goes on.
  unfoldable pub consume : Message → W → Bool × W
  unfolding write_tries
  consume m w = consume_decoded m (decode m.value) w

  -- `Run`, over what the fetches return.
  unfoldable pub run : List Fetch → W → Ended × W
  unfolding consume
  run [] w = (waiting, w)
  run (message m ∷ fs) w =
      let (on, w1) = consume m w in
      let rest = run fs w1 in if on then rest else (infrastructure, w1)
  run (cancelled ∷ fs) w = (stopped, w)
  run (fetch_error ∷ fs) w = (read_failed, w)
