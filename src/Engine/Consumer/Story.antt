-- ===== src/Engine/Consumer/Story.antt =====
-- consumer.go with main.go's handler: what a run of the engine publishes, shelves and commits.
use cledyu.Base.{
  ℕ, zero, suc, ◌≡◌, sym, subst, inl, inr, Bool, true, false, List, [], ◌∷◌, Option, none, some,
  if◌then◌else◌, Bool-cases, Option-cases,
}
use cledyu.Engine.{Text, VmSpec, ValidationRequest, ValidationResult}
use cledyu.Engine.Executor.{Made}
use cledyu.Engine.Handler.{Publisher, Handled, done, failed, fatal, handle}
use cledyu.Engine.Handler.Answers.{
  Entry, published, unpublished, shelved, unshelved, committed, uncommitted, Answers, Published,
  kept_publisher, kept_new, handle-Published,
}
use cledyu.Engine.Consumer.{
  Message, Fetch, message, cancelled, fetch_error, Broker, Ended, waiting, stopped, read_failed,
  infrastructure, dlq_max_retries, write_tries, consume, commit_message, after_handler, run,
}

abbrev pub Log : Type 0
Log = List (Entry Message)

abbrev pub shelf_of : Bool → Message → Entry Message
shelf_of true m = shelved m
shelf_of false m = unshelved m

abbrev pub commit_of : Bool → Message → Entry Message
commit_of true m = committed m
commit_of false m = uncommitted m

-- A broker beside a log, which has the calls that fail too.
unfoldable pub kept_broker : {W : Type 0} → Broker W → Broker (W × Log)
kept_broker b = record {
  write_dlq = λ m s. let (ok, w) = b.write_dlq m s.0 in (ok, (w, shelf_of ok m ∷ s.1));
  commit = λ m s. let (ok, w) = b.commit m s.0 in (ok, (w, commit_of ok m ∷ s.1));
}

-- Attempts on the dead letter queue, at most `k`, up to the first that succeeds.
pub data Tries : ℕ → Message → Log → Log → Type 0 where
  gives_up : {m : Message} {l : Log} → Tries zero m l l
  shelves : {k : ℕ} {m : Message} {l : Log} → Tries (suc k) m l (shelved m ∷ l)
  retries :
      {k : ℕ} {m : Message} {l l' : Log} → Tries k m (unshelved m ∷ l) l' → Tries (suc k) m l l'

-- What the fetches make of a log. Behind the attempts to shelve a message that is no request, even where
-- none succeeds, it is committed; so is a request behind its answer. A commit may fail, and the run goes
-- on. Where an answer does not go out, the run ends there, with no commit of the message.
pub data Story (decode : Text → Option ValidationRequest)
    : List Fetch → Ended → Log → Log → Type 0 where
  waits : {l : Log} → Story decode [] waiting l l
  stops : {fs : List Fetch} {l : Log} → Story decode (cancelled ∷ fs) stopped l l
  breaks : {fs : List Fetch} {l : Log} → Story decode (fetch_error ∷ fs) read_failed l l
  unreadable :
      {m : Message} {fs : List Fetch} {e : Ended} {l l' l'' : Log} (ok : Bool)
      → decode m.value ≡ none
      → Tries dlq_max_retries m l l'
      → Story decode fs e (commit_of ok m ∷ l') l''
      → Story decode (message m ∷ fs) e l l''
  answered :
      {m : Message} {fs : List Fetch} {e : Ended} {l l'' : Log} (req : ValidationRequest)
      (r : ValidationResult) (ok : Bool)
      → decode m.value ≡ some req
      → Answers req r
      → Story decode fs e (commit_of ok m ∷ published r ∷ l) l''
      → Story decode (message m ∷ fs) e l l''
  unanswered :
      {m : Message} {fs : List Fetch} {l : Log} (req : ValidationRequest) (r : ValidationResult)
      → decode m.value ≡ some req
      → Answers req r
      → Story decode (message m ∷ fs) infrastructure l (unpublished r ∷ l)

module _ {W : Type 0} (decode : Text → Option ValidationRequest) (b : Broker W) (p : Publisher W)
    (new_exec : VmSpec → W → Made W × W) where
  abbrev pub engine : ValidationRequest → W × Log → Handled × (W × Log)
  engine = handle (kept_publisher p) (kept_new new_exec)

  write_tries-Tries :
      (k : ℕ) (m : Message) (s : W × Log)
      → Tries k m s.1 (write_tries decode (kept_broker b) engine k m s).1
  unfolding write_tries kept_broker
  write_tries-Tries zero m s = gives_up
  write_tries-Tries (suc k) m s =
      let (ok, w) = b.write_dlq m s.0 in
      elim (Bool-cases (b.write_dlq m s.0).0) [
        | inl e ↦ rw e shelves
        | inr e ↦ rw e (retries (write_tries-Tries k m (w, unshelved m ∷ s.1)))
      ]

  -- The loop behind a message.
  abbrev go_on : List Fetch → Bool × (W × Log) → Ended × (W × Log)
  go_on fs r = if r.0 then run decode (kept_broker b) engine fs r.1 else (infrastructure, r.1)

  abbrev Told : List Fetch → Log → Ended × (W × Log) → Type 0
  Told fs l r = Story decode fs r.0 l r.1.1

  handler-Told :
      (m : Message) (fs : List Fetch) (req : ValidationRequest) (l : Log) (r : Handled × (W × Log))
      → decode m.value ≡ some req
      → ((s : W × Log) → Told fs s.1 (run decode (kept_broker b) engine fs s))
      → Published p req l r
      → Told (message m ∷ fs) l (go_on fs (after_handler decode (kept_broker b) engine m r))
  unfolding kept_broker
  handler-Told m fs req l (done, s) e rest (res, a, inl (h, log)) =
      answered req res (b.commit m s.0).0 e a (
        subst
          (λ k. Told fs (commit_of (b.commit m s.0).0 m ∷ k) (
            run decode (kept_broker b) engine fs
              (commit_message decode (kept_broker b) engine m s)))
          log (rest (commit_message decode (kept_broker b) engine m s)))
  handler-Told m fs req l (done, s) e rest (res, a, inr (h, log)) = cc
  handler-Told m fs req l (failed, s) e rest (res, a, inl (h, log)) = cc
  handler-Told m fs req l (failed, s) e rest (res, a, inr (h, log)) = cc
  handler-Told m fs req l (fatal, s) e rest (res, a, inl (h, log)) = cc
  handler-Told m fs req l (fatal, s) e rest (res, a, inr (h, log)) =
      subst (λ k. Story decode (message m ∷ fs) infrastructure l k) (sym log)
        (unanswered req res e a)

  -- From any log, a run of the engine over any fetches makes of the log what its story tells. For a message
  -- that is no request there are attempts to write it to the dead letter queue, until one succeeds and
  -- three at most, and then one attempt to commit it, also where all three have failed. For
  -- a request a result that answers it is published, and directly behind that
  -- there is one attempt to commit it; where the publication fails, no commit is tried and the run
  -- ends. A commit that fails does not end the run.
  pub run-Story :
      (fs : List Fetch) (s : W × Log) → Told fs s.1 (run decode (kept_broker b) engine fs s)
  unfolding run consume kept_broker
  run-Story [] s = waits
  run-Story (cancelled ∷ fs) s = stops
  run-Story (fetch_error ∷ fs) s = breaks
  run-Story (message m ∷ fs) s = elim (Option-cases (decode m.value)) [
    | inl e ↦ rw e (
        unreadable (b.commit m (write_tries decode (kept_broker b) engine dlq_max_retries m s).0).0
          e (write_tries-Tries dlq_max_retries m s)
          (run-Story fs (
            commit_message decode (kept_broker b) engine m
              (write_tries decode (kept_broker b) engine dlq_max_retries m s))))
    | inr (req, e) ↦ rw e (
        handler-Told m fs req s.1 (engine req s) e (run-Story fs)
          (handle-Published p new_exec req s))
  ]
