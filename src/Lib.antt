-- ===== src/Lib.antt =====
-- go-mongo-sync: synchronisation of MongoDB collections between a VM and a cloud. This library
-- models the transport of document batches over TCP (pkg/transport), the write-ahead log (pkg/wal),
-- the circuit breaker and the retries (pkg/resilience), the sequence numbers (pkg/sequence), the
-- field filters (pkg/filtering), the resume tokens and change streams (pkg/resume), the coordinator
-- of events (pkg/cluster), the partitions of a collection (pkg/parallel), and of the two programs
-- the initial copy of a collection (cmd/vm-sync) and the broadcast of events and the semaphores
-- (cmd/cloud-sync).
--
-- The program. A sender (pkg/transport/sender.go) turns a list of BSON documents into one payload,
-- the stream name in front, gives it the next sequence number of its stream and hands a frame to
-- one of its connections. A connection of the receiver (pkg/transport/receiver.go, `handleLoop`)
-- cuts the bytes it reads into frames; `handleDocBatch` drops repeated batches, splits the payload
-- again, puts the batch into a ring buffer (pkg/transport/buffer.go) and acknowledges it. Workers
-- (`batchWorker`) take the batches out, write them to the database and advance the checkpoint.
--
-- The write-ahead log stands in front of the database: `Append` puts an entry into a queue, one
-- worker writes a group of entries to the active segment file and calls fsync once, and answers
-- each caller. An applier (pkg/wal/applier.go) writes entries to the database and appends a marker
-- for each. At the next start `recover` reads all segments and `RecoverPendingEntries` submits the
-- pending entries. A circuit breaker and a retry manager guard the calls of the database, and a
-- generator numbers the events of a node by batches that it reserves in a counter document. A field
-- filter says which fields of a document are sent, as a projection of the database or on a document
-- at hand.
--
-- Changes. `BufferFreeChangeHandler` watches a collection, records the token of each event for the
-- clients in the token manager and puts the event into a channel; a stream that is run again
-- resumes after a recorded token. The main program of the cloud broadcasts a change to the clients
-- that are connected and records its token for those. `EventCoordinator` queues events, drops
-- duplicates by an event buffer, collects batches and distributes them over processors. The
-- program on the side of the target copies a whole collection at the start: it drops its own, gets
-- the pages by workers in any order and upserts their documents in batches. Later it applies each
-- change event to the collection that its configuration names, moves the checkpoint and
-- acknowledges the event; an event that fails is logged.
--
-- The files.
--   Prelude: names of the libraries, Boolean tests, list lemmas, bytes (big and little endian),
--     results with an error, Go's maps, string literals, and steps that may not return.
--   Transport/Protocol: pkg/transport/protocol.go, the frame header, the frame constructors and the
--     payloads of acknowledgements and resume messages.
--   Transport/Loop: `handleLoop` of pkg/transport/receiver.go, from the bytes of a connection, split
--     into reads, to the frames that reach the message switch.
--   Transport/Payload: `concatenateBSONDocs` and the name prefix of pkg/transport/sender.go,
--     `parseBSONDocs` and the name of pkg/transport/receiver.go.
--   Transport/Queue: `BufferedBatchQueue` of pkg/transport/buffer.go.
--   Transport/Receiver: `handleDocBatch`, `handleResumeRequest`, `batchWorker` and the checkpoints.
--   Transport/Sender: `sendBatch`, `sendStandardBatch`, `sendLargeBatchStreaming`, `waitForWindow`,
--     `handleAckOptimized` and the wait of `sendBatchWithAck`, for one stream.
--   Wal/Segment: the entries and their bytes, pkg/wal/types.go, `serializeEntry`, `readEntry` and
--     `ReadSegment` of pkg/wal/segment.go.
--   Wal/Log: the state of the log, the writing half of pkg/wal/segment.go, `rotateSegment` and the
--     loop of `flushPendingCommits` of pkg/wal/wal.go.
--   Wal/Commit: `Append`, `MarkApplied`, `groupCommitWorker`, `flushPendingCommits` and `Close`.
--   Wal/Recovery: `recover` and `GetPendingEntries` of pkg/wal/wal.go, and what a crash leaves.
--   Wal/Applier: pkg/wal/applier.go.
--   Resilience/Breaker: pkg/resilience/circuit_breaker.go.
--   Resilience/Retry: `ExecuteWithResult`, `isRetryable` and `contains` of
--     pkg/resilience/retry_manager.go.
--   Sequence: pkg/sequence/generator.go.
--   Filtering: `ApplyFieldFilter` and `BuildFieldFilterPipeline` of pkg/filtering/filter.go.
--   Filtering/Document: `buildDocumentFilterPipelineWithPrefix` of the same file.
--   Models: the change event of pkg/models/events.go.
--   Resume/Tokens: pkg/resume/token_manager.go.
--   Resume/Handler: pkg/resume/buffer_free_handler.go, a run of a stream as steps.
--   Cluster/Buffer: pkg/cluster/event_buffer.go.
--   Cluster/Coordinator: pkg/cluster/event_coordinator.go, the goroutines' steps.
--   Parallel/Partition: pkg/parallel/partitioner.go.
--   Memory/Buffer: pkg/memory/buffer.go.
--   CloudSync/Permits: the semaphores of cmd/cloud-sync/main.go.
--   CloudSync/Broadcast: `handleChangeEventWithBackpressure`, `updateResumeTokensForAllClients` and
--     `broadcastToClients` of the same file.
--   VmSync/Pages: `syncCollectionData` of cmd/vm-sync/main.go, with `processRemainingPagesParallel`,
--     `insertDocumentsBatch` and the memory of its worker pool.
--   VmSync/Events: `processChangeEvent` of the same file and the loop over events that calls it.
--   Resume/Checkpoints: the updates in memory of pkg/resume/checkpoint.go.
--   Each folder beside a file holds the lemmas on it, and the Tests of a part run on samples.
--
-- State and operations. Each Go struct is a record with the fields of the struct that carry data; a
-- method takes the record and returns the new one. A mutex makes the operations atomic, so they are
-- functions one after another; what other goroutines do while a call waits is a list of events that
-- the call is given. A select on channels is an argument that says which case was ready. Maps are
-- association lists, a set of sequence numbers is a list. uint64 counters of sequence numbers wrap
-- at 2^64 where the code adds to them; statistics of the transport and of the log do not wrap. The
-- log of Wal keeps, of the active segment, what an fsync has confirmed apart from what was written
-- since; of a file that a crash keeps it leaves the first and any prefix of the second. An answer on a request's channel is
-- an item of a list. Of several goroutines each step that no other can come between is a function,
-- and a theorem speaks of any list of them; the distribution of one batch and the taking of a
-- permit are one step each. A step that would wait, or that panics, returns none.
--
-- Parameters. The CRC-64 of the standard library, the zstd and lz4 compressors, the label that
-- `fmt.Sprintf` makes of a stream id and the batch handler are arguments; so are CRC-32C, the
-- reading of an ObjectID, what Go says of the dynamic type of a value, the callbacks of breaker and
-- retries, encoding and encryption of a message, the decoding of a document and its id, the upserts
-- of the database and its other operations, the text of a time and of a document key, the clock,
-- and how each call of the operating system or the database ends. What is assumed of them is a hypothesis of the theorem:
-- that a checksum has 64 bits, or 32, that a bulk write of upserts with distinct ids replaces or adds
-- their documents and no others, and that an insertion of an absent id, a replacement of a present
-- document and a deletion succeed and change what is found under that id only. What a crash leaves of
-- the log is said for a file system that keeps its files under their names and damages none; a failed
-- fsync puts a segment in doubt, and nothing in it counts as confirmed from then on.
--
-- Fuel. `handle_loop` runs on fuel; every round takes an arrival or some bytes of one, so one more
-- than the size of the connection is enough. `parse_bson_docs` runs on fuel; every document but one
-- of size zero takes a byte, so one more than the length of the payload is enough. `read_segment`
-- runs on fuel; every entry takes a byte, so one more than the length of the file is enough.
-- `insert_batches` runs on fuel; every round takes a document, so their number is enough.
--
-- Not modelled: sockets, deadlines, sleeps and goroutine scheduling, log output, the checkpoint
-- file, the multiplexer, the compaction of the log, which the code leaves open, the delays between
-- retries, which are floating-point, `ValidateDocumentAgainstFilter`, which compares values of any
-- type, storing and loading checkpoints and the oplog monitor of pkg/resume, the worker pools of
-- pkg/parallel and pkg/cluster, the compressed form of the buffer and the manager of pkg/memory, the
-- rest of the two programs, and the packages beside the ones above, which are glue
-- over the MongoDB driver and HTTP or wait for a later version.
pub mod Filtering
pub mod Parallel
pub mod Memory
pub mod Models
pub mod Cluster
pub mod CloudSync
pub mod VmSync
pub mod Prelude
pub mod Resilience
pub mod Resume
pub mod Sequence
pub mod Transport
pub mod Wal
