-- ===== src/Lib.antt =====
-- kafka-wire: a single-node broker that speaks the Kafka protocol and keeps its records in log files.
-- A client's request comes as a frame over a connection (internal/wire); the broker checks names and
-- rights, runs the rebalances of consumer groups and keeps their committed offsets (internal/broker);
-- the record batches of a partition are stored in a log of segments (internal/storage), whose old
-- segments go to an archive (internal/tiering) and are deleted by a sweep. A forwarder sends the records
-- of a topic to a URL and keeps those it cannot deliver (internal/webhook).
--
-- The files and what they model:
--   Prelude           Boolean tests, lists, results, int64 with its wrap-around, big-endian fields,
--                     sort.Search, sorting, and Go's maps as association lists.
--   Storage.File      the calls of os.File that the storage engine makes.
--   Storage.Record    internal/storage/record.go and compression.go: a batch's header, the checks on a
--                     batch, and the two writes into one (RewriteBaseOffset, SetPartitionLeaderEpoch).
--   Storage.Batches   splitBatches of internal/wire/produce.go, trimToBatchBoundary of
--                     internal/storage/log.go.
--   Storage.Index, Storage.TimeIndex   internal/storage/index.go and timeindex.go.
--   Storage.Segment   internal/storage/segment.go: OpenSegment and recover, Append, ShouldRoll, ReadAt,
--                     FindBatchAt, Seal.
--   Storage.Log       internal/storage/log.go: Append, rollLocked, FetchAt, findSegmentLocked,
--                     DeleteSegmentsBefore, LookupOffsetByTimestamp, OpenLog and recover.
--   Storage.Retention   sweepOnce of internal/storage/retention.go, for one log.
--   Wire.Frame        internal/wire/frame.go: readRequest, skipTaggedFields, uvarint, writeResponse.
--   Wire.Sasl         internal/wire/sasl.go: the SCRAM conversation, SaslHandshake and SaslAuthenticate with
--                     the gate of dispatch.go (Handlers), the keys of the users' file (Users).
--   Broker.Names, Broker.Acl, Broker.Offsets   internal/broker/names.go, acl.go and offsets.go.
--   Broker.Topics     internal/broker/topic.go (Registry), restore_fetch.go (Archive) and the operations
--                     on topics of broker.go, with produce and fetch (Service).
--   Broker.Group      internal/broker/group.go: its state; who is a member and who leads (Members), the
--                     choice of a protocol (Protocol), closeRound (Close), JoinGroup (Barrier), SyncGroup,
--                     Heartbeat and LeaveGroup (Sync), all groups together (Coordinator). Steps has the
--                     operations on a group as a relation.
--   Tiering.Manifest  internal/tiering/manifest.go, and the search for an offset of restore_fetch.go.
--   Tiering.Cache     internal/tiering/cache.go.
--   Webhook           internal/webhook/forwarder.go: deliver and splitKey (Delivery), the dead letter files
--                     and RedeliverDLQ (Dlq).
--
-- A byte is a natural number, a string or a file's content a list of bytes. An int64 is an integer, and
-- sums that the code computes in int64 are wrapped by `wrap_64`; positions in files are natural numbers.
-- State is passed explicitly: an operation that can fail after it changed something returns the changed
-- state beside its result. An error value keeps its reason and loses its text.
--
-- The directory of a log holds the files of the log's segments. A roll opens what is there at the new
-- base offset, which is nothing as long as the offsets of the batches rise; a batch with a negative
-- delta can lead it to the files of a segment that exists. Two segments on the same files would share
-- them; in the model the later one gets its own copy, and no theorem has that case.
--
-- A request that blocks is two functions: one up to the wait, which says what it waits for, and one that
-- gives the answer after it; between them any other steps may come. A round of a rebalance has a number
-- in place of its pointer. A loop over a Go map takes the order of the association list.
--
-- Parameters: `crc32c`, the Castagnoli checksum of Go's library; `is_flexible`, kmsg's table of
-- flexible versions; the readings of the clock; what the disk guard says; whether the archive has a
-- segment, and its bytes when it is restored; SHA-256, HMAC, PBKDF2, base64 and random
-- bytes; what the directories of unregistered topics hold; the random digits of a member id; TrimSpace,
-- and what the JSON library and the endpoint make of a dead letter. Nothing is assumed of the checksum.
--
-- Loops run on structure or on fuel. splitBatches and trimToBatchBoundary have the length of their
-- input for fuel, and a round takes 61 bytes at least; recover has the length of the log;
-- FindBatchAt one more than the length of the log, and the scan of a restored segment the length of the
-- segment.
--
-- Not modelled: calls of the operating system that fail, syncing, locks and timers, the JSON files,
-- deadlines of connections, kmsg's encoding of request bodies, the broker's start and shutdown,
-- uploads and restores, object stores, configuration, metrics, the goroutines and statistics
-- of webhooks, and the administration pages.
pub mod Prelude
pub mod Storage
pub mod Wire
pub mod Broker
pub mod Tiering
pub mod Webhook
