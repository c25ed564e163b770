-- ===== src/Lib.antt =====
-- confort runs Docker containers for tests, and lets the tests of several processes share them. This
-- library models the parts of it that decide who may use what, and when.
--
-- The parts and their files:
--
-- * internal/exclusion, a process' locks. Exclusion/Queue is `acquireController` of acquire.go: the
--   queue of the calls of `Acquire`, where each method is one function, since the mutex `m` makes it
--   atomic. A queue element is named by a number that `accept` counts up. Exclusion/Acquire is
--   `Acquirer.Acquire` as a step relation over any number of concurrent calls. Exclusion/KeyedLock is
--   keyedlock.go, Exclusion/Locker the operations of `Locker` and `ContainerLock` of locker.go,
--   Exclusion/Entries its `AcquireContainerLock`, and Exclusion/Control `LockForContainerUse` of
--   control.go with the inits that it runs.
-- * internal/beacon/server, the server through which test processes share the locks. Beacon/Streams
--   has the handlers `LockForNamespace`, `LockForBuild` and `LockForContainerSetup` of beacon.go,
--   Beacon/Requests and Beacon/Containers its `AcquireContainerLock`. A handler is a loop over rounds;
--   a round says what `Recv` and `Send` return and whether the stream's context is done. The locker
--   of Exclusion/Locker is the state that all streams share.
-- * The clients of that server: Beacon/Client is `beaconControl` of internal/exclusion/control.go, as
--   the requests that its methods send and what they return, and Beacon/Address is
--   internal/beacon/addr.go and resource_policy.go.
-- * unique/unique.go and internal/beacon/server/unique.go, the values that are not generated twice:
--   Unique has the generator of one process, Unique/Server the stores of the server, and
--   Unique/Global the generator that asks the server. Requests of other clients come in between.
-- * config_consistency.go, the check of a container that exists against one that is asked for:
--   Consistency has the checks of a field, Consistency/Configs and Consistency/Checks those of whole
--   configs.
-- * wait/wait.go, the wait for a container: Wait.
-- * backend.go, the use of Docker. Backend models `Namespace` of `dockerBackend` with
--   `resolveHostIP`, where the networks of Docker are the state and the prefix of the containers' names
--   is the namespace with a dash behind it, Backend/Ports the methods of `Ports`,
--   and Backend/Build `BuildImage`. Backend/Table has the state of `dockerNamespace`, Backend/Create
--   `CreateContainer` with what the client answers (Backend/Answers), Backend/Start
--   `containerPortMap`, `StartContainer` and `Release`, and Backend/Histories any sequence of such
--   calls on a fresh namespace.
-- * confort.go, what the tests call. Api/Options and Api/New are `New` and `Close`, over the namespace of
--   Backend and a lock of the namespace (the record NamespaceLock, which Api/New/Local fills with the
--   locker of one process). Api/Params and Api/Run are `Run` with `createContainer`, and Api/Build is
--   `Build`; both work under a lock of the record KeyLocks of Beacon/Streams/Keyed, which
--   Beacon/Streams/Locks fills with the locks of the locker. Api/Acquire is `Acquire` with `Use` and
--   `Do`.
-- * exec.go, a command on a container: Exec.
-- * internal/beacon/beacon.go and label.go, the connection to the server and the label of the resources
--   that belong together: Beacon/Connect.
-- * internal/cmd, the commands: Commands has the operations of operations.go, Commands/Execute the three
--   commands over the servers that run, the lock files and the resources of Docker, and Commands/Flags
--   their flags.
--
-- What is taken as a parameter: golang.org/x/sync/semaphore (the record Semaphore, in
-- Exclusion/Semaphore, with the instance `counting`) and github.com/daichitakahashi/oncewait (the
-- record Oncewait, in Exclusion/Oncewait, with the instance `names_done`). Their fields state what
-- is documented of them. The func `fn` of a generator, `fmt.Sprint`, and what becomes of a call of
-- the server are parameters too, as are the calls of the Docker client, `strings.EqualFold`,
-- `nat.ParsePortSpecs`, the SHA-256 hash, package gocmd, what the tests do under `confort test`, and the
-- values that the configs of Docker point to.
--
-- How it is modelled: a map is an association list or a list of keys; where Go visits it in any
-- order, the theorems hold for any order of the list. A lock that is asked for while it cannot be had
-- ends with the error of its context: a call that waits is one that comes later in the order of the
-- calls. The option type gives `none` for a panic, and for a lock of the namespace that blocks. The
-- loop of `generate` counts its retries, and a handler's loop runs over the rounds of its client;
-- only `wait` has fuel, one attempt for each nanosecond of the timeout and one more, which is enough
-- where an attempt and the interval behind it take a nanosecond at least. A `time.Duration` of the
-- waiter is an integer, and one that is not positive is over at once. The loops that end with a backoff
-- run over the answers that come until then. The limit `max` of a keyed lock is 2 ^ 63 - 1, and `WithRetry(0)` wraps
-- to 2 ^ 64 - 1.
--
-- What is not modelled: the deadlines of `applyTimeout`, which show only as the parameters that say
-- that a context is done; the messages of a build or a pull, and the tar file of a build; `StringFunc`,
-- a loop over random numbers; the registration of the services with gRPC and the health check that they
-- pass on; logging, the texts of the commands, the generated protocol code, mocks, tests and examples.
-- What an error says is left out where nothing depends on it.
mod Base
pub mod Exclusion
pub mod Api
pub mod Backend
pub mod Beacon
pub mod Consistency
pub mod Commands
pub mod Exec
pub mod Unique
pub mod Wait
