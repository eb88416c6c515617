-- ===== src/Lib.antt =====
-- kine, an etcd shim: it answers the part of the etcd API that the Kubernetes API server uses from
-- another store. A request comes to a handler of pkg/server, which checks its shape and calls a
-- backend; the backend is the in-memory one (pkg/drivers/memory), or pkg/logstructured over a log
-- such as the SQL tables of pkg/logstructured/sqllog.
--
-- What models what:
--   Types            pkg/server/types.go: KeyValue, Event, the errors.
--   Memory           pkg/drivers/memory/memory.go. Entry: the entries and the loops over one history
--                    or log (toKeyValue, atRevision, the floor of Compact, the watcher's batch).
--                    State: Memory, New, appendEntry, latest, logIndexAfter. Writes: Create, Update,
--                    Delete, Start. Reads: List, Get, Count. Compaction: Compact. Watching: Watch.
--                    Tree is the interface of github.com/tidwall/btree, SortedMap a map that meets
--                    it. Each method that holds the lock is one function from the state to the
--                    results and the state, in the order of the Go results.
--   Server           pkg/server. Request: the messages of the etcd API. Backend: the interface
--                    Backend, and the in-memory backend as an instance. Version: EncodeVersion and
--                    DecodeVersion of compact.go. Convert: toKV and toKVs of kv.go. Shapes and Txn: Txn of
--                    limited.go with create.go, update.go, delete.go and compact.go. Range: Range of
--                    kv.go and limited.go with get.go and list.go, and Put of put.go. Etcd: what etcd
--                    does for the same transactions, with their options. Plain: with the
--                    options off. Members: LeaseGrant, MemberList and Status of lease.go, cluster.go and maintenance.go. Watch and WatchSteps: the watch
--                    stream of watch.go, its operations and their steps in any order.
--   Logstructured    pkg/logstructured/logstructured.go. Log: the interface Log. Store: Get, Create,
--                    Update, Delete, List, Count. Watch: Watch and filter. Lawful: what the writes
--                    rely on in the log; Sqllog/Lawful has the log of
--                    sqllog as one such log.
--   Sqllog           pkg/logstructured/sqllog/sql.go. Poll: the poll loop over the rows of one read, and
--                    filter. Consecutive and Gaps describe what it sends. Compaction: the transaction
--                    of compact, over the interface Transaction of pkg/server/types.go. Batches:
--                    compactIter. Dialect is the interface Dialect of pkg/server/types.go. Rows:
--                    RowsToEvents and scan. Log: CurrentRevision, After, List, Count, Append,
--                    Compact. Answers, Reads and Refinement are about what they return. Relief:
--                    RelieveQuota of kubehz_relief.go. ReliefLoop and Relieved are about its end.
--   Quota            pkg/server/kubehz_quota.go. Figures: the counters, the reservations, sample.
--                    Admission: Create and Update of the wrapper, WithQuota. Relief: tick and what it
--                    calls. Reached: the puts and ticks one after another. Races: the atomic
--                    loads, stores and additions of puts and samples in any order.
--   Ttl              pkg/ttl/ttl.go. Store: the map. Loops: the steps of Run, seed and handle.
--                    Held: where a
--                    key can stand. Handled and Tracked: what holds after each.
--   Nats             pkg/drivers/nats/codec.go, the codec of keys. Split: strings.Split and Join. Codec:
--                    Encode, EncodeRange, Decode. RoundTrip: decoding what was encoded.
--   Broadcaster      pkg/broadcaster/broadcaster.go. Channels: Subscribe, unsub, start, stream, and the reads
--                    of the subscribers. Delivered: what a subscriber gets of the stream.
--   Prelude          names of the libraries, lists, byte strings, Go's int64 with its decimal form.
--
-- Numbers: revisions, leases, limits and counts are Go int64s and are natural numbers here, so a
-- request with a negative one is outside the model, and no counter reaches 2^63 (so the limit of the quota is below
-- 2^62). The versions of the compact key, the compared versions, and the start revisions and ids of
-- watch requests can be negative in practice, and are integers; the version wraps around at 2^63. An int64 has at most
-- 19 decimal digits, and `digits` has fuel for 20.
--
-- Concurrency: the in-memory backend does each call under its lock, so a call is one step, and
-- interleavings are sequences of calls. A write of pkg/logstructured makes two calls of its log;
-- what others do between them is a parameter, any function of the log's state. The steps of a
-- watch stream come in any order. The counters of the quota are atomic, and its races are
-- interleavings of single loads, stores and additions. The steps of the broadcaster are what
-- it does under its lock. In the steps of the TTL queue each access to
-- the map, which is locked, to the queue or to the backend is one. The clock of the poll loop is a
-- Boolean: whether the second of patience with a gap is over.
--
-- Loops are structural recursion on the list that they go through; the loop of compactIter has one
-- unit of fuel for each revision up to its target, as has that of RelieveQuota, and each pass that
-- goes on advances by at least one.
--
-- Not modelled: the paging of the seeding of pkg/ttl, logging and metrics, contexts and their
-- cancellation, gRPC and a send on its stream that fails, the SQL dialects, the NATS driver but its
-- codec of keys, the t4 driver, the choice of a driver and its configuration, the endpoint and the
-- command, the timer of the quota: input and output, set-up, or calls of other
-- programs.
pub mod Prelude
pub mod Types
pub mod Memory
pub mod Server
pub mod Logstructured
pub mod Sqllog
pub mod Quota
pub mod Ttl
pub mod Nats
pub mod Broadcaster
