-- ===== src/Lib.antt =====
-- A model of the gateway of Open-Nipper, which takes messages from chat channels, queues them for
-- the agents of their users, and sends the agents' answers back to the channels.
--
-- A message enters at the router. It is identified, admitted by the allowlist guard, given a
-- session key, registered, checked for a duplicate, and then published or put in a collect buffer.
-- The events that an agent emits for it reach the dispatcher, which finds the delivery context in
-- the registry, collects the text of the deltas and delivers the response to the channel adapter.
--
-- The cron channel makes messages of its own and passes them to the router. The guard and the router
-- ask a repository, which a cache stands in front of. The health monitor looks at the queues of the
-- agents, and the agents keep the sessions' transcripts in files, under a lock, and compact them.
--
-- Parts, by file and by source:
--   Models: internal/models/channel.go, message.go, queue.go, session.go, user.go.
--   Session/Key: pkg/session/key.go (BuildSessionKey, ParseSessionKey, SanitizeSessionID).
--   Session/Lock: pkg/session/lock.go (Lock as lock, lockFileIsStale). Session/Lock/System has any
--     number of processes at one lock file, and a step for each access to the file system.
--   Session/Types, Session/Store: pkg/session/types.go and store.go (all operations, by their
--     names); Session/Store/Index has sessions.json and its cache, Session/Store/Archive has
--     ArchiveSession and ResetSession. Session/Store/Paths has the paths of the files (userDir,
--     sessionsDir, archiveDir, transcriptPath, lockPath, metaPath, indexPath).
--   Session/Compaction: pkg/session/compaction.go (Compact).
--   Allowlist: internal/allowlist/guard.go (Check with writeRejection).
--   Gateway/Resolver: internal/gateway/resolver.go (Resolve, deriveSessionID).
--   Gateway/Dedup: internal/gateway/dedup.go (IsDuplicate, evictExpired, buildKey).
--   Gateway/Registry: internal/gateway/registry.go (Register, Lookup as peek, Consume, Len as size,
--     EvictOlderThan).
--   Gateway/Delivery, Gateway/Dispatcher: internal/gateway/dispatcher.go (HandleEvent and all that
--     it calls, the WebSocket subscribers, evictStaleAccumulators).
--   Gateway/Collect, Gateway/Router: internal/gateway/router.go (HandleMessage,
--     handleNormalizedMessage step by step, enqueueCollect, flushCollectBuffer). Gateway/Collect/Timers
--     has the timers and goroutines that flush the buffers.
--   Gateway/Heartbeats: internal/gateway/heartbeat_store.go.
--   Gateway/HealthMonitor: internal/gateway/healthmon.go (checkAll, updateStatus, DeriveAgentStatus,
--     GetStatus, GetAllStatuses).
--   Channels/Cron: internal/channels/cron/scheduler.go (LoadJobs, AddJob, RemoveJob, fireJob as
--     job_message). CronLib is what the cron library documents. Channels/Cron/AtJobs: the one-shot jobs
--     of the same file (AddAtJob, LoadAtJobs, RemoveAtJob, and scheduleAtJob, the function of whose
--     timer is fire, forget and clean_fired: the handler, the part under the lock, and the datastore).
--   Datastore: internal/datastore/interface.go (Backend, an unknown database), cache.go. A read or a
--     write is one step; TtlCache is what the cache's library documents.
--   RateLimit: internal/ratelimit/limiter.go.
--   Agent/ToolDedup: internal/agent/tooldedup.go (check, InvokableRun of the wrapped tool, wrapToolsWithDedup,
--     sanitizeToolDescriptions).
--   Prelude, Strings: what the parts share: maps, texts, and the functions of Go's strings package
--     that the source calls. Tests: runs on concrete inputs.
--
-- How it is modelled. A method is a function from the state of its component to the new one, and a
-- mutex makes it one step. Clock readings and fresh identifiers are arguments. What a component
-- does outside is a list in its state, the oldest first; the answers of the datastore, the
-- publisher and the adapters are functions of that list, so they may change from call to call. A
-- goroutine or a timer that runs later is a step that may come at any point of a sequence of steps.
-- Go's maps are association lists; what is proved of them is stated through lookups or holds for
-- any order. Times are natural numbers, of nanoseconds, of milliseconds at the session lock, and of
-- seconds at the datastore's cache and in the session store. A file is what decoding it gives;
-- which calls of the file system fail is an argument, and a write of a line that fails writes
-- nothing. The store finds its files by user and session id, which is what their paths come to where
-- user ids are single segments of a path and session ids have no slash; its operations are modelled
-- for such ids only, and the paths for all, below a base path that is rooted. Texts are lists of code
-- points. Loops are structural recursion on the list that the source iterates, or, for the delivery
-- retries, on the attempts that are left, which are three.
-- The loop of a lock has fuel: 102 rounds more than those that may find a stale file are enough for
-- a call to return.
--
-- Not modelled: logging and telemetry, the channel adapters, the database itself, RabbitMQ, the
-- HTTP server, the agent runtime except for its tool call limit, the
-- concurrency of the cached reads, the cleaning of stale locks, configuration loading, and starting
-- and stopping goroutines.
pub mod Prelude
pub mod Strings
pub mod Models
pub mod Session
pub mod Allowlist
pub mod RateLimit
pub mod Agent
pub mod Channels
pub mod Datastore
pub mod Gateway
pub mod Tests
