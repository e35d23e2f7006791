-- ===== src/Lib.antt =====
-- Cledyu, a platform for hands-on labs: the API creates a VM for each session, on the premises (KubeVirt)
-- or on EC2, keeps the progress of the session through the steps of its lab, and has the steps
-- graded by the validation engine, which runs checks on the VM. API and engine talk over Kafka: the
-- API publishes a validation request, the engine answers with a validation result, and the API
-- applies the result to the session's progress.
--
-- The parts, and the code that each is about:
--   * Base: shared helpers: names of the libraries, tests into Bool, lists over the native ℕ, Go maps
--     as association lists.
--   * Session: the contract between the API and the VM providers, apps/api/internal/session/session.go;
--     Session.Contract states it over what a caller can see. Session.Dispatcher is
--     apps/api/internal/session/dispatcher.go, two providers behind the same contract.
--   * Progress: the steps of one session, apps/api/internal/api/handlers/session.go
--     (findValidatableStepIndex, markStepValidating, markStepPassed, ApplyValidationResult, allPassed)
--     and nextHint of hint.go. Progress.Unlock has the histories of a session as a step relation.
--   * Store: stepStore of apps/api/internal/api/handlers/progress.go, the cache of progress in front of
--     the database.
--   * Lifecycle: how a session starts and ends, CreateSession, GetSession, DeleteSession and the reapers of
--     apps/api/internal/api/handlers/session.go, over a provider (Session), the step store (Store) and the
--     events emitted so far; Lifecycle.Validate is ValidateStep with ownership.go's ensureStepSession, and
--     Lifecycle.Entitlement is entitlement.go.
--   * Engine: the messages, apps/validation-engine/internal/model. Engine.Checker is
--     internal/checker/checker.go, Engine.Executor the constructors of internal/executor,
--     Engine.Handler the handler of cmd/engine/main.go and Engine.Consumer internal/consumer.
--   * Kubevirt: the on-premises provider, apps/api/internal/kubevirt/session.go and syncBootStatus of
--     watcher.go, over the Kubernetes API (Kubevirt.Cluster; what is relied on of it, Kubevirt.Laws).
--   * Ec2: the overflow provider, apps/api/internal/ec2/provisioner.go and cloudinit.go, over the EC2 API
--     (Ec2.Cloud; how it launches and filters an instance, Ec2.Laws). It is not shown to keep the
--     contract of Session, since AWS does not promise that a read shows what was just written.
--   * Identity: who a token stands for and who passes a route, apps/api/internal/auth/oidc.go and
--     apps/api/internal/middleware/auth.go and rbac.go.
--   * Leaderboard: apps/api/internal/api/handlers/leaderboard.go; Leaderboard.Mine has a user's own progress
--     and preference, over the database (Sql).
--   * Sql: apps/api/internal/store/store.go, whose SQL statements are functions on the tables (Sql.Tables):
--     Sql.Checkout the subscriptions and checkouts, Sql.Progress the progress of a session, Sql.Users
--     the users, their completions and what the leaderboard and the dashboard ask for.
--   * Billing: apps/api/internal/api/handlers/billing.go, over the checkouts of Sql.Checkout.
--   * Dashboard: apps/api/internal/api/handlers/dashboard.go, over what the database and the provider answer.
--   * VmFiles: apps/api/internal/vmfiles/snapshot.go and service.go; VmFiles.Handlers is
--     apps/api/internal/api/handlers/vm_files.go, over a provider (Session).
--   * Lock: the distributed lock, apps/api/internal/lock/redis.go. Lock.Acquire has its loop, and
--     Lock.KeepOut what the other replicas do meanwhile.
--
-- State is passed explicitly. A provider, a VM, a database and a Kafka broker are records of functions
-- over a state of their own, which is a parameter; what a theorem relies on is a hypothesis on that
-- record. Errors are values of a type of the model. A loop over Kafka is a function of what the fetches
-- return; every other loop is over a list, but that of the lock's Acquire, which runs on fuel: 42 tries
-- are enough for its 2000 ms, since 50 lie between two of them. The digits of a number recur on a proof
-- that they get smaller, and the attempts on the dead letter queue on their constant number.
-- An `int` that a message can make negative is an ℤ; step IDs in the API, attempts and levels are
-- native numbers, since the code writes no other. A time limit is in seconds.
--
-- The calls of the Kubernetes and EC2 APIs are steps of their own, and nothing else happens between two of
-- them; a read is what the API answers in a state, a fault included. Instants are in seconds,
-- those of the lock in milliseconds.
--
-- A table is the list of its rows. A statement works, breaks, or works while its answer is lost, as a fault
-- that is given for each of them says; a transaction is one step, which nothing else is interleaved with, and
-- leaves the tables alone where it is not committed. The step store of Store is over any database that
-- gives back what is saved where the lab, the user and the ascending step IDs are those of the row that
-- is there; what the tables keep is in Sql.Progress. An expiry and the database's clock are in seconds.
--
-- Not modelled: logging, metrics other than the boot counters, and tracing; pgx, its pool and the
-- migrations, Kafka, Redis, JSON, virtctl, the Kubernetes client and the AWS SDK; the HTTP layer and the
-- other handlers; the text of the on-premises user data, the tailnet's HTTP client and the terminals;
-- the SSH runner of the files, and that requests for one listing at once are merged; the lock of a
-- single instance, which is a Go mutex for each key. A method of the step store is one step, and is not
-- interleaved with others; so is a request of a handler, but for the faults of the database.
pub mod Base
pub mod Session
pub mod Progress
pub mod Store
pub mod Lifecycle
pub mod Engine
pub mod Kubevirt
pub mod Ec2
pub mod Identity
pub mod Leaderboard
pub mod Lock
pub mod Sql
pub mod Billing
pub mod Dashboard
pub mod VmFiles
