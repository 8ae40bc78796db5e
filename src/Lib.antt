-- ===== src/Lib.antt =====
-- TokMesh (https://github.com/yndnr/tokmesh-go): a distributed session and token store in Go.
--
-- The program. HTTP, Redis and cluster servers call services (src/internal/core/service), which work
-- on the domain model (src/internal/core/domain) and keep the sessions in a storage engine
-- (src/internal/storage/engine.go). The engine writes each change to a write-ahead log
-- (src/internal/storage/wal) and then to the in-memory store (src/internal/storage/memory), from which all
-- reads are served; after a restart it rebuilds the store from a snapshot and the log. The store
-- keeps its primary map and its indexes in sharded maps (src/pkg/cmap). The token service guards
-- against replayed requests with a bounded cache of nonces. The nodes of a cluster share a map of shards,
-- which a state machine under Raft keeps (src/internal/server/clusterserver).
--
-- The files, and the code that each is about (paths from the repository's root):
--   GoMap         Go's built-in map
--   Cmap          src/pkg/cmap/sharded.go and iter.go: Map, one step to an operation; Cmap/Iter has the
--                 operations over all shards, Cmap/Versioned the compare-and-swap ones
--   Domain/Str    Go's strings as bytes
--   Domain/Error  src/internal/core/domain/errors.go: the codes, and results that carry one
--   Domain/Session  src/internal/core/domain/session.go: Session, Validate, Touch, expiry and version
--   Memory/SessionSet, Memory/UserIndex  src/internal/storage/memory/index.go
--   Memory/Store, Memory/Change  src/internal/storage/memory/store.go: creation and reads; update,
--                 removal, cleanup, scans and loading
--   Memory/Store/Invariant  what it means that the indexes and the primary map agree
--   Memory/Consistent  the methods of the store on consistent stores
--   Storage/Entry, Storage/Engine  src/internal/storage/wal/entry.go and src/internal/storage/engine.go: the
--                 writing methods, replayWAL, applyEntry and Recover
--   Storage/Codec  src/internal/storage/wal/codec.go and readOneEntry of reader.go: the frames
--   Storage/Writer, Storage/Reader  src/internal/storage/wal/writer.go and reader.go: the segments, their
--                 checksums, batches, rotation and close; reading them from the start or an offset
--   Storage/Compactor  Compact of src/internal/storage/wal/compactor.go
--   Storage/Durable  requests, log files and recovery together
--   Domain/Token  src/internal/core/domain/token.go: the formats of tokens and hashes, and masks
--   Service/Nonce  NonceCache of src/internal/core/service/token.go
--   Service/Token  Validate and CheckNonce of src/internal/core/service/token.go
--   Service/Repository  SessionRepository of src/internal/core/service/session.go, as a record of
--                 operations and laws; Service/Repository/InMemory fills it with the store
--   Service/Lifecycle  Get and Update of src/internal/core/service/session.go, and Renew, Touch, Revoke,
--                 RevokeByUser and GC of src/internal/core/service/session_lifecycle.go
--   Domain/ApiKey  src/internal/core/domain/apikey.go: roles, permissions and keys
--   Memory/ApiKeyStore  src/internal/storage/memory/apikey.go
--   Service/Auth  src/internal/core/service/auth.go: ValidateAPIKey, the changes of keys, Service/Auth/Cache
--                 the cache, Service/Auth/Secret the hashes of secrets
--   Storage/Snapshot  src/internal/storage/snapshot/manager.go: the file of a snapshot; its Directory has
--                 Create, List, Load and Prune
--   Domain/Strings  what the code uses of the package strings
--   Redis/Resp    src/internal/server/redisserver/resp.go: commands read and replies written
--   Redis/Command, Redis/Glob  src/internal/server/redisserver/command.go: Handle, the handlers and
--                 permissions of the commands; matchGlob
--   Cluster/ShardMap  src/internal/server/clusterserver/shard.go: ShardMap and its consistent hash ring;
--                 Cluster/Sorted has sort.Slice and sort.Search
--   Cluster/Fsm   src/internal/server/clusterserver/fsm.go, with what the server hands to Raft (server.go)
--   Cluster/Membership, Cluster/Replication  setupDiscoveryCallbacks and checkReplicationHealth of
--                 src/internal/server/clusterserver/server.go, and Join of handler.go
--   Cluster/Rebalance  src/internal/server/clusterserver/rebalance.go: computeMigrations, migrateShardData,
--                 TriggerRebalance; Cluster/Cleanup has cleanupShardData, Cmap/Locked the locks of the shards that
--                 it takes
--   Cluster/Interceptor  src/internal/server/clusterserver/interceptor.go: who may call a handler
--   Base          shared names, tests and lemmas on lists and numbers
--
-- Conventions. A method that changes its receiver takes its state and returns the new one beside
-- its result. Clocks are arguments: `now` is what time.Now() reads, in the unit that the code uses
-- there. Times, lengths and counts are natural numbers; versions are uint64 and wrap at 2^64; times,
-- lifetimes and the session quota are not negative. Errors are values of `Result`, told apart by
-- their codes. A lock that a method holds makes it one step. The seeded hash of a sharded map and
-- the answer of the log writer are arguments, about which nothing is assumed. Values have no
-- identity, and a clone is the value itself: code that changes a session after it was stored or
-- logged changes its own copy.
--
-- A request of the session service is one step on the repository, but for Touch, whose first read and
-- first write another request may come between. SHA-256, JSON, CRC-32, base64 and the cipher are
-- arguments, with the laws that they keep in the records `Library` and `Cipher`. JSON leaves out three
-- fields of a session, which no method of the store reads. The files of the log are lists of bytes, and
-- each file operation succeeds. Argon2 and the addresses of the package net are arguments of the
-- authentication, and strconv and strings of the Redis protocol.
--
-- Bounds and fuel. Loops over lists are structural. The loop of the nonce cache that evicts has no
-- bound in the code and runs on fuel here: more fuel than elements is enough when the capacity is
-- positive, and none is enough when it is zero. The loops that read a log run on fuel too: a number that
-- is not below the bytes, or is above the entries, is enough. sort.Search runs on the length of the slice,
-- and decimal digits on the number.
--
-- In the cluster, murmur3, JSON and gzip are arguments; Raft commits the entries that it accepts in one
-- order, and its answers are arguments too. The migrations of one rebalance run one after the other. The
-- callback of a scan runs under the read lock of the shard that it visits, which the cleanup of a migration
-- waits for. The Redis handlers work on a record of services. Snapshots are files of a directory in the
-- order of their names, and the times of files are in milliseconds.
--
-- Not modelled: errors of file operations, listing with filters and pages, the rate limiters, the listing of
-- API keys, creation and listing in the session service, the HTTP server, starting and stopping, TLS and
-- the wrappers of Raft and of the discovery, TransferShard, the client, telemetry and configuration. An
-- append that the writer refuses is taken to leave no entry in the log.
pub mod Base
pub mod Cluster
pub mod Cmap
pub mod Domain
pub mod GoMap
pub mod Memory
pub mod Redis
pub mod Service
pub mod Storage
