-- ===== src/Lib.antt =====
-- go-like: contexts and metadata, the resilience policies, the process-local Store and Cache, the
-- health probes, the messages of an event stream, the selectors of the registry and the DNS messages
-- of mDNS discovery.
--
-- packages/context carries cancellation, deadlines and values from a caller to the calls below it;
-- packages/metadata puts its snapshots on contexts as values. A service built on go-like guards its
-- calls with the three policies of packages/resilience: a token bucket limiter, a circuit breaker
-- and a bounded retry. Each reads the caller's Context (cancellation and deadline) through
-- packages/resilience/src/internal.ts before and after it runs application code. packages/store
-- defines a provider-neutral key-value Store with conditional writes, revisions, expiry and cursor
-- pages; packages/store/memory keeps one in a Map. packages/cache and packages/cache/memory are a
-- key-value cache with lifetimes. packages/health registers liveness and readiness probes and
-- reports on them.
--
-- Files:
-- - Prelude and its children: Boolean tests on the native ℕ, lists, results, texts.
-- - Context/Nodes and Context/World: packages/context/src/internal.ts. The WeakMap of nodes is a list,
--   newest first, so that a loop over the parents recurs on it; the variables of a cancel context and
--   the listeners of its signal are a cell under the node's address. Context/Wave is the cancellation
--   wave of cancel.ts, Context/Derive the functions that make contexts (cancel.ts, value.ts,
--   deadline.ts), the deadline timer and afterFunc; `Call` of Context/Reachable lists the calls, and
--   `Reachable` the states that they lead to. Links, Settling, Draining, Tidying, Spread, Trees,
--   Growth, Registering, Creating, Calls and Timed show what tasks, waves and calls keep;
--   Cancellation, Deadlines and Timers say what contexts report.
-- - Metadata: packages/metadata/src/index.ts. Snapshots has the operations on snapshots, Carried the
--   contexts that carry them, as values of Context/World under two private keys, and propagation.
--   Lookups, Laws and Propagation hold the proofs.
-- - Resilience/Internal.antt: packages/resilience/src/internal.ts. A `Context` is what its methods
--   give at one instant: the value of done() and the value of err(); `observe` is
--   readContextFailure(inspectContext(ctx)). `WaitEnd` says how the wait for a delay ends.
-- - Resilience/Limiter.antt: packages/resilience/src/limiter.ts. `Bucket` is the captured options and
--   the two variables of newTokenBucketLimiter; `consume` is `allow` behind its guards.
--   Limiter/Refill, Limiter/Waiting and Limiter/Rate hold the proofs.
-- - Resilience/Circuit.antt: packages/resilience/src/circuit.ts. `Circuit` is the five variables of
--   newCircuitBreaker. `execute` awaits the operation and the classifier, so it is cut there: `begin`
--   up to the call of the operation, `finish` when that settles, `classify` when the classifier
--   settles. Circuit/Probes.antt has the state of a breaker with its calls in flight and the step
--   relation that interleaves the pieces of any number of calls; Probes/Invariant its invariant.
--   Circuit/Admission and Circuit/Counting are about single calls and about calls in sequence.
-- - Resilience/Retry.antt: packages/resilience/src/retry.ts. `Environment` holds what a run reads from
--   outside, by the number of the attempt: the operation, the policy, the backoff, the end of each
--   wait and the Context at each point where it is read, and which promises never settle. Retry/Rounds,
--   Retry/Loop and Retry/Delays hold the proofs.
-- - Store.antt, Store/Keys.antt, Store/Sort.antt: packages/store/src/options.ts, types.ts and the key
--   order of snapshot.ts, which sorts by it.
-- - Store/Memory.antt and Store/Memory/Operations.antt: packages/store/memory/src/store.ts. The Map is
--   a list in insertion order. Memory/Table has the laws of the Map, Memory/Refinement the abstract
--   Store (what is under a key at an instant) with reads and writes, Memory/Deletion deletes,
--   Memory/Pages the pages of `list`.
-- - Store/Snapshots.antt: the copies of packages/store/src/snapshot.ts.
-- - Cache.antt: packages/cache/src/options.ts. Cache/Memory.antt: packages/cache/memory/src/cache.ts,
--   a Map of entries (Prelude/Assoc); Cache/Memory/History is about sequences of calls.
-- - Health.antt, Health/Report.antt: packages/health/src/registry.ts. The array of registrations, the
--   two sets of names and the unregister functions handed out are one state; `run_probe` is runProbe,
--   by what the child Context and the probe do. Health/History is about sequences of calls.
-- - Transport/Sse.antt: createMessageParser of packages/transport/src/sse/parser.ts. Its TextDecoder
--   is a parameter, and a line comes with the index of its first colon, as the line parser gives it;
--   Sse/FieldLines says what the lines of a stream should give, Sse/Dispatch proves it. Sse/Lines is
--   createLineParser, whose buffer stands as the scanned bytes of the line and the bytes behind them;
--   Sse/Chunks is about the cuts.
-- - Registry/Mdns: packages/registry/mdns/src/dns.ts. Names (integers and names), Addresses (IPv4 and
--   IPv6), Packets (records and messages) and Unpacking (reading them) are the code: a read takes an
--   offset and returns the one behind it, a write returns the bytes that it appends. NameWire,
--   RecordWire and PacketWire read back what was written; NameBounds is about names read from any
--   bytes. Cache is packages/registry/mdns/src/cache.ts, with the two functions of canonical.ts that
--   it calls as parameters; CacheLaws and CacheExpiry are about it.
-- - Registry/Selector: packages/registry/src/selector.ts and compareCodePoints of snapshot.ts.
--   Identity and Domains are what selections are remembered by, Strategies the random, round-robin and
--   weighted selectors, Choices and Feedback the P2C selector, whose endpoint states are shared by the
--   domains and the feedback callbacks and stand in a heap. Rotation and Fairness are about
--   round-robin turns, Slots and Cycles about weighted ones, Recency about the bounded memory,
--   Eligible about the choice of P2C, Balance about its counts. Prelude/Runs has calls one after
--   another.
-- - Tests.antt in Context, Metadata, Resilience, Store, Cache, Health, Registry/Mdns, Registry/Selector
--   and Transport/Sse: the code at concrete inputs.
--
-- Choices:
-- - The monotonic clock gives a real number of milliseconds. It is read as a whole number of ticks,
--   any number `resolution` of them to a millisecond, so that Math.ceil and Math.floor are divisions
--   that round. A reading that is no finite number is `none`. The Store's clock gives whole
--   milliseconds, and `none` is a reading that timestamp rejects.
-- - A call with a wrong type throws before anything else; what the language checks at run time for
--   options that are no object or callbacks that are no function is a Boolean where it may come from a
--   caller, and is left out for the option objects of the constructors.
-- - Numbers are exact: counters and revisions have no rounding. Every bound that the code checks is in
--   the model; the token count, which stays at most a safe capacity, is computed before `min` without
--   the rounding that a product above 2 ^ 53 has, and the breaker's generation and failure counters
--   are taken to stay below 2 ^ 53. Delays and the multiplier of a backoff are whole numbers.
-- - `retry` recurs from attempt to attempt; the model has maxAttempts as its fuel, which is shown to
--   be enough: a run without a result waits for a promise that never settles. The walk along the cursors
--   of `list` has as many calls as there are records to find, and one more.
-- - An operation's value and its failure are a number: the code hands both on without a look.
-- - A conflict error has no payload, and a text cursor is the triple that encodeCursor writes or a
--   text that decodeCursor rejects.
-- - A selector takes a snapshot that snapshotServiceInstances has published; what the Context, the
--   random source and the weight callback give is an argument, a random sample as a fraction of whole
--   numbers, so that Math.floor is a division that rounds.
-- - Callbacks leave the selector alone, so that runSerializedCompletion runs a completion at once and
--   the eligible endpoints are the same at each reading. A cooldown's deadline is exact.
-- - The loop of decodeName ends after 129 rounds in the code, which are its fuel in the model; the
--   loop over TXT items has as many rounds as there are bytes of them, and each takes one byte at
--   least.
-- - Every parent of a modelled context is a context of the package; a context of the resilience
--   policies is what its methods answer, whoever made it. The cleanups of the package add no task to
--   a wave, so its tasks run before the first of them. The tasks of a wave have the number of
--   registered listeners as fuel: each task is added by one of these, which is taken off.
-- - A program may add abort listeners of its own to the signal of a context. They are taken not to call
--   the package, so that a call begins when the one before has returned and a wave has no other wave
--   inside it: calls from such a listener, which activeCancellationWave and the nested waves of cancel.ts
--   serve, are not in the model, and what is said of cancellation is said of programs without them.
-- - Epochs are whole milliseconds from the least time value of the language; a timeout is a whole
--   number of them. performance.now and setTimeout may fail when a deadline's timer starts; when an
--   early wake reads the clock and sets the timer again they are taken not to.
-- - The operation, the policy and the waits of `retry` are in the model by what their promises settle
--   with or never do; the wait for a delay is in the model by its end, and that addEventListener or
--   setTimeout throws in it is left out.
-- - The cursor of a provider's page is a text or absent, so the check of its type is left out.
-- - Metadata arguments are snapshots of the package; any other record passes `new_metadata` first.
--   toLowerCase is a parameter.
-- - A call of the Store has no await inside, so it is one step.
--
-- Not modelled: the packages that are clients of services or bindings of libraries (brokers, registry,
-- config and store providers, transports, loggers, telemetry), the sockets of mDNS, the code
-- generator, the application life cycle, contexts made by other packages, calls of the context package
-- from abort listeners of a program, the freezes that keep a returned record apart from the stored one,
-- and the EWMA selector.
pub mod Cache
pub mod Context
pub mod Health
pub mod Metadata
pub mod Prelude
pub mod Registry
pub mod Resilience
pub mod Store
pub mod Transport
