-- ===== src/Lib.antt =====
-- The runtime of beam-agents: agents as keyed, stateful Beam transforms with durable suspensions.
--
-- Core models src/beam_agents/core/dofn.py, the DoFn that runs one agent per key. `KeyState` holds
-- its state cells and timers; `process`, `on_ttl`, `on_flush` and `on_hitl` are its four callbacks,
-- each from a state to a `Run`, that is the state left, the outputs in order and the metrics, or to
-- the error that fails the bundle. Core/Elements and Core/Process are the routes of an element
-- (`_start`, `_buffer`, `_flush`, `_resume`), Core/Engine what they share (`_commit`,
-- `_record_commit`, the dead-letter chokepoint), Core/Admission the check of a result against the
-- live suspension, Core/Timers and Core/HitlTimer the timers, Core/Callbacks the steps that a
-- runner takes with them. Core/Migration is core/migration.py, Core/Batching core/batching.py,
-- Core/IntentId the identifier of core/agent.py, Hitl hitl.py, and Wire the messages of
-- protos/beam_agents.proto.
--
-- Effector/Dedup models the in-memory store of src/beam_agents/effector/dedup.py: `claim`,
-- `complete` and `release` on a dictionary of records, each with its readings of the clock and the
-- new token as arguments, over an abstract serialiser of results. Effector/Dedup/Contract states
-- the `DedupStore` protocol as an abstract lease of one intent, which Effector/Dedup/Promise shows
-- of the in-memory store. Effector/Redis is the Redis store, over the documented commands of a
-- server.
--
-- Effector/Runner is effector/runner.py, a tool intent to its result, and Effector/Service is
-- effector/service.py, one delivery through every phase of `process` as the list of its effects.
-- The answers of the dedup store, the tool, the clock and the sinks are arguments there, so that a
-- theorem about the order of the effects holds whatever they answer. The waits of a claim run over
-- the list of outcomes that come, and end in `waiting` when the list does. Effector/Partitions is
-- the dispatcher of `run` with the workers of the partitions and `_on_revoked`, where `Step` is
-- what can happen while one partition is kept and the others come and go. IntentSigning is
-- src/beam_agents/intent_signing.py over an abstract HMAC.
--
-- Model/Budget and Model/Breaker are the token meter and the circuit breaker of
-- src/beam_agents/model/facade.py, Model/Retry its retry loop and Model/Facade the `complete` that
-- puts them together, Model/CacheEntry and Model/ReplayCache the cache of
-- src/beam_agents/model/replay_cache.py over an abstract SHA-256 and the sizes that protobuf gives.
-- Memory is the working memory of src/beam_agents/memory/facade.py: Memory its entries and
-- encodings, Memory/Calls its methods with the caps, where a compactor is any program over the
-- methods, and Memory/Compaction the default one of src/beam_agents/memory/compaction.py.
--
-- Core/Context is the `ActivationContext` of src/beam_agents/core/context.py as a record of what is
-- staged, Core/Context/Operations each of its operations, and Core/Loop `run_activation` of
-- src/beam_agents/core/loop.py. An agent is a program over the operations: what it does may depend
-- on every reply, and it returns or raises. The provider, the tools, the long-term store and the
-- clock are the fields of an `Environment`, whose answers may depend on how often it was asked.
--
-- Core/AgentContext is the `AgentContext` of the same file, which an authored agent is handed, over
-- Model/Facade, Memory, Traces and Tools; Tools is src/beam_agents/tools/registry.py and runner.py.
--
-- The run on the async bridge, with the elapsed time, is the parameter `activate` of an
-- `AgentDoFn`; `IsDriven` says that it is `run_activation` or the bound on its time; the escalation
-- policy, the expiry hook, the registered migrations, `uuid5` and the trace id are its other
-- parameters. What an activation promises of a suspended result is the hypothesis `RunsSoundly`.
-- Times are integers in milliseconds, a clock reading is an argument, and a formatted text that no
-- code reads back is a value that carries what was formatted. The migration loop runs on the
-- versions that are left, `str(n)` on n + 1 digits, the eviction loops of the replay cache on the
-- number of entries, the retries on `max_attempts`, a ring's decoder on the number of bytes and the
-- varint's loop on its argument, which is enough in each case.
--
-- Keys is src/beam_agents/keys.py, the physical shard keys of a logical one. Traces is
-- src/beam_agents/observability/traces.py over an abstract uuid5, on the protobuf event that Replay
-- declares. Replay is src/beam_agents/replay/diff.py, the comparison of a replayed activation with
-- its trace, over an abstract serialization of an event; the texts of its report are not modelled.
-- Console/Feed is src/beam_agents/console/_sse.py, the live feed of the console: `FeedStep` is what
-- happens at a broadcaster, and the wakeup event of a reader is a flag.
--
-- Not modelled: search in the long-term store and the stores themselves; the summarizing
-- compactor's own program; the Bigtable store, the effector's semaphore, a worker that fails and
-- the shutdown; the rest of the console, the adapters, the providers, the Beam graph and the
-- coders, which are I/O.
pub mod Base
pub mod Wire
pub mod Hitl
pub mod Keys
pub mod Core
pub mod Memory
pub mod Model
pub mod IntentSigning
pub mod Effector
pub mod Console
pub mod Replay
pub mod Tools
pub mod Traces
