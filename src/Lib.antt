-- ===== src/Lib.antt =====
-- Hexastack: a model of the parts of the toolkit that keep state in memory, and of what they promise.
--
-- Hexastack is a set of Python packages for hexagonal architecture. A port is an abstract class; its
-- in-memory adapter is the one that runs without outside services and that fixes the meaning of the
-- others. The model follows the adapters of the core, of events and of the command and query buses. An
-- application guards its calls of other services by the circuit breaker and the rate limiter, keeps
-- results in the cache, and hands events and work to streams, the outbox and the task queue, which share
-- no state. Messages go through the pipeline: it routes a message to a bus, the bus wraps the registry's
-- handler in its middleware, which may work on a circuit breaker or a unit of work, and what is raised
-- goes to the exception registry. The workflow runner publishes what its engine reports. The accounts keep
-- users, an index of their addresses, and tokens that are used once. The token budgets cut a conversation
-- for a language model down to a number of tokens. The financial ledger is the repository's largest
-- worked example of an application.
--
-- The files, and the code that each one models (paths from the root of the repository, where CORE is
-- packages/hexastack_core/src/hexastack_core, EVENTS is packages/hexastack_events/src/hexastack_events,
-- CQRS is packages/hexastack_cqrs/src/hexastack_cqrs, FLOW is
-- packages/hexastack_flow/src/hexastack_flow, AUTH is packages/hexastack_auth/src/hexastack_auth, AI is
-- packages/hexastack_ai/src/hexastack_ai and LEDGER is examples/financial-ledger/src/financial_ledger):
--   Core/CircuitBreaker.antt  CORE/adapters/circuit_breaker/in_memory.py: `InMemoryCircuitBreaker`
--   Core/RateLimit.antt       CORE/adapters/ratelimit.py: `_parse_rate_limit`, `InMemoryRateLimiter`
--   Core/Cache.antt           CORE/adapters/cache/in_memory.py: `InMemoryCache`
--   Core/Lock.antt            CORE/adapters/lock/in_memory.py: `InMemoryLock`, `AsyncInMemoryLock`
--   Core/LeaderElection.antt  CORE/adapters/leader_election/in_memory.py: `SingleProcessLeaderElection`
--   Core/UnitOfWork.antt      CORE/ports/unit_of_work.py, CORE/adapters/unit_of_work/in_memory.py
--   Core/Registry.antt        CORE/infra/registries/generic.py
--   Core/Pointers.antt        CORE/domain/pointers.py
--   Cqrs/Buses.antt           CQRS/adapters/buses: the synchronous buses
--   Cqrs/Middleware.antt      CQRS/infra/middleware: generic.py, circuit_breaker.py, unit_of_work.py, feature_flag.py
--   Cqrs/Pipeline.antt        CQRS/infra/pipeline.py, CQRS/infra/registries/presenter.py
--   Core/CacheBreaker.antt    CORE/adapters/circuit_breaker/cache.py: `CacheCircuitBreaker`
--   Flow/Runner.antt          FLOW/adapters/cqrs/runner.py, FLOW/domain/models.py, FLOW/domain/events.py
--   Cqrs/Caching.antt         CQRS/infra/middleware/caching.py
--   Ledger/Account.antt       LEDGER/domain/models.py: `Account`, `TransactionEntry`
--   Ledger/Journal.antt       LEDGER/domain/models.py: `JournalTransaction`
--   Ledger/Repository.antt    LEDGER/adapters/driven/database.py
--   Ledger/Handlers.antt, Ledger/Recording.antt  LEDGER/infra/handlers.py, LEDGER/domain/commands.py
--   Events/Relay.antt         EVENTS/adapters/outbox/asyncio.py
--   Auth/Passwords.antt       AUTH/ports/password.py, AUTH/adapters/in_memory.py: `InMemoryPasswordHasher`
--   Auth/Users.antt           AUTH/domain/user.py, AUTH/adapters/user_repository.py
--   Auth/Lifecycle.antt       AUTH/adapters/handlers.py, AUTH/domain/commands.py
--   Ai/Tokens.antt            AI/adapters/tokens.py, AI/domain/tokens.py
--   Core/Identity.antt        CORE/adapters/identity/in_memory.py: `InMemoryIdObfuscator`
--   Auth/Webhooks.antt        AUTH/adapters/webhook.py: all but `SvixWebhookVerifier`
--   Events/Tasks.antt         EVENTS/domain/tasks.py, EVENTS/adapters/tasks/in_memory.py
--   Events/Streams.antt       EVENTS/domain/streams.py, EVENTS/adapters/streams/in_memory.py
--   Events/Outbox.antt        EVENTS/domain/models.py, EVENTS/adapters/outbox/in_memory.py
-- The folder of each file holds its theorems, named for what they are about, and its tests. Base.antt and
-- its folder hold lists, sorting, signed integers, texts and the outcome of a call that may raise;
-- Dict.antt holds Python's dict as an association list in insertion order.
--
-- How the code corresponds. An object is a record of its attributes, or the attribute itself where
-- it has one only. A method is a function of its arguments and the object, and returns its result
-- with the object after the call; where a method writes to an object that a dict holds, the new
-- value is put back under the same key. Functions and fields have the names of the source; helpers
-- named `_in`, `_found` and `_spec` are the branches of the method that they stand beside. A method
-- is one step in a history, which is a list of calls, and the theorems on runs are about every
-- list. The locks of the circuit breaker, the rate limiter, the streams, the task queue, the token
-- store and the repositories make it so for threads. The cache, the circuit breaker in a cache, the
-- outbox storage, the leader election and `InMemoryLock.release` have no such lock: their histories
-- are of calls that do not overlap, and what an overlap does to the lock stands in
-- Core/Lock/Overlap.antt. A callee that the circuit breaker runs without its lock is a function on
-- the breaker. `Outcome` says how a call ends: it returns, it raises an `Exception`, or it is
-- interrupted by another `BaseException`.
--
-- Numbers. Times are whole milliseconds, or seconds for webhooks, passed in by the caller where the source
-- reads a clock; each reading of the clock is an argument of its own, except where a file says that the
-- clock does not move.
-- Integers that may be negative are signed. A loop of the source is a recursion on a list or a number, with
-- a few exceptions on fuel: the search for the longest prefix of a message has one more round than words,
-- and it ends with an empty range, since each round makes the range smaller; the digits of a number have
-- as many rounds as the number, or one more, which each division makes smaller.
--
-- Amounts of money are whole numbers of their smallest unit, and their sums are exact.
--
-- Parameters. The number that the MD5 digest of a key gives (`digest`), payloads and values (any type),
-- fresh identifiers, the callee of the circuit breaker, the listeners of the leader election, the classes
-- of messages with `issubclass`, the validation of payloads, the bus and the lock of the outbox relay, the
-- workflow engine, the password hasher, the digest of a webhook and the number of tokens of a text are
-- arguments.
--
-- Not modelled: the asynchronous classes other than the lock, whose methods call the synchronous ones or
-- repeat them; how long a caller waits; rate limits that are not ASCII; negative times to live; `clear`
-- and `get_all` of the outbox; the adapters for outside services (Redis, databases, brokers, web
-- servers); the asynchronous side of the pipeline; the costs of tokens, which are floating-point numbers;
-- the webhooks of Svix; the packages for servers, scaffolding, logging and telemetry.
pub mod Base
pub mod Dict
pub mod Core
pub mod Events
pub mod Cqrs
pub mod Flow
pub mod Ai
pub mod Auth
pub mod Ledger
