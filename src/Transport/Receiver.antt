-- ===== src/Transport/Receiver.antt =====
-- pkg/transport/receiver.go: what the receiver does with a document batch and with a resume
-- request, and the workers that take the batches off the queue. Go's maps are lists searched by
-- key. The decompressors are those of `r.compressors`, in the order in which the loop over the map
-- meets them; they come from other libraries and are parameters, and so is the label that
-- `fmt.Sprintf` makes for a stream whose name is not yet known. An acknowledgement is sent when it
-- is written to the connection: `acks` lists them, the newest first.
pub mod Delivery
pub mod Marks
pub mod Retry
pub mod Streams
pub mod Workers
use go_mongo_sync.Prelude.{
  ℕ, zero, suc, ◌+◌, ◌%◌, ◌^◌, Bool, true, false, ◌||◌, Option, none, some, List, [], ◌∷◌, ◌++◌,
  leb, ◌==◌, if◌then◌else◌, length,
}
use go_mongo_sync.Prelude.Bytes.{Bytes, bytes_eq}
use go_mongo_sync.Prelude.Result.{Result, ok, err}
use go_mongo_sync.Transport.Protocol.{
  Frame, ResumeMessage, is_compressed, decode_resume_message, new_resume_response_frame,
}
use go_mongo_sync.Transport.Payload.{split_stream_name, parse_bson_docs, Parsed}
use go_mongo_sync.Transport.Queue.{
  Queue, Wait, Enqueued, accepted, full_timeout, shutting_down, blocked, enqueue, Dequeued, given,
  empty_timeout, dequeue,
}

pub record StreamState : Type 0 where
  pub stream_id : ℕ
  pub stream_name : Bytes
  pub last_seq : ℕ
  pub duplicate_batches : List ℕ

pub record BatchQueueItem : Type 0 where
  pub stream_name : Bytes
  pub batch_seq : ℕ
  pub documents : List Bytes

pub record ReceiverStats : Type 0 where
  pub bytes_received : ℕ
  pub batches_received : ℕ
  pub documents_received : ℕ
  pub error_count : ℕ
  pub decompressed_bytes : ℕ

pub record Receiver : Type 0 where
  pub stream_states : List StreamState
  pub batch_queue : Queue BatchQueueItem
  pub stats : ReceiverStats
  pub acks : List (ℕ × ℕ)
  pub checkpoints : List (Bytes × ℕ)

unfoldable pub contains : ℕ → List ℕ → Bool
contains n [] = false
contains n (m ∷ ms) = n == m || contains n ms

-- `r.streamStates[id]`
unfoldable pub find_stream : ℕ → List StreamState → Option StreamState
find_stream id [] = none
find_stream id (s ∷ ss) = if s.stream_id == id then some s else find_stream id ss

-- A write through the pointer to the state of a stream that is in the map, or a new entry.
unfoldable pub put_stream : StreamState → List StreamState → List StreamState
put_stream t [] = t ∷ []
put_stream t (s ∷ ss) = if s.stream_id == t.stream_id then t ∷ ss else s ∷ put_stream t ss

abbrev pub Decompressors : Type 0
Decompressors = List (ℕ × (Bytes → Option Bytes))

abbrev compression_none : ℕ
compression_none = 0

abbrev compression_zstd : ℕ
compression_zstd = 1

find_compressor : ℕ → Decompressors → Option (Bytes → Option Bytes)
find_compressor t [] = none
find_compressor t ((u, c) ∷ cs) = if u == t then some c else find_compressor t cs

-- The loop that tries the other types; the entry for no compression is passed over.
try_all : Decompressors → Bytes → Option Bytes
try_all [] payload = none
try_all ((t, c) ∷ cs) payload =
    let rest = try_all cs payload in
    if t == compression_none then rest else elim (c payload) [ some p ↦ some p | none ↦ rest ]

pub data Unpacked : Type 0 where
  plain : Bytes → Unpacked
  inflated : Bytes → Unpacked
  broken : Unpacked

or_try_all : Decompressors → Bytes → Option Bytes → Unpacked
unfolding try_all
or_try_all cs payload (some p) = inflated p
or_try_all cs payload none = elim (try_all cs payload) [ some p ↦ inflated p | none ↦ broken ]

-- With no decompressor for zstd the payload stays as it is.
unpack : Decompressors → Bool → Bytes → Unpacked
unfolding find_compressor or_try_all
unpack cs false payload = plain payload
unpack cs true payload = elim (find_compressor compression_zstd cs) [
  | none ↦ plain payload
  | some zstd ↦ or_try_all cs payload (zstd payload)
]

unfoldable pub send_ack : ℕ → ℕ → Receiver → Receiver
send_ack stream_id batch_seq r = record r { acks = (stream_id, batch_seq) ∷ r.acks }

unfoldable pub handle_error : Receiver → Receiver
handle_error r = record r { stats = record r.stats { error_count = r.stats.error_count + 1 } }

-- How a handler ends: it returns, its document parser never does, or it still waits for the queue.
pub data Handled : Type 0 where
  returned : Receiver → Handled
  hung : Receiver → Handled
  waiting : Receiver → Handled

-- The end of `handleDocBatch`: the error of a failed `Enqueue` is counted by `handleError` and once
-- more, and no acknowledgement is sent.
after_enqueue : ℕ → ℕ → Receiver → Enqueued BatchQueueItem → Handled
unfolding send_ack handle_error
after_enqueue id seq r (accepted q) = returned (send_ack id seq (record r { batch_queue = q }))
after_enqueue id seq r (full_timeout q) =
    let r' = handle_error (record r { batch_queue = q }) in
    returned (record r' { stats = record r'.stats { error_count = r'.stats.error_count + 1 } })
after_enqueue id seq r (shutting_down q) =
    let r' = handle_error (record r { batch_queue = q }) in
    returned (record r' { stats = record r'.stats { error_count = r'.stats.error_count + 1 } })
after_enqueue id seq r (blocked q) = waiting (record r { batch_queue = q })

after_parse : Frame → Bytes → Receiver → List (Wait BatchQueueItem) → Parsed → Handled
unfolding after_enqueue handle_error
after_parse f name r ws none = hung r
after_parse f name r ws (some (err e)) = returned (handle_error r)
after_parse f name r ws (some (ok docs)) =
    let r' : Receiver = record r {
      stats = record r.stats {
        bytes_received = r.stats.bytes_received + length f.payload;
        batches_received = r.stats.batches_received + 1;
        documents_received = r.stats.documents_received + length docs;
      };
    } in
    let item : BatchQueueItem = record {
      stream_name = name;
      batch_seq = f.header.batch_seq;
      documents = docs;
    } in
    after_enqueue f.header.stream_id f.header.batch_seq r' (enqueue r.batch_queue item ws)

-- The name is split off and the documents are parsed; the parser gets more rounds than bytes.
with_payload : Frame → StreamState → Receiver → List (Wait BatchQueueItem) → Bytes → Handled
unfolding after_parse
with_payload f s r ws payload =
    let (name, rest) = split_stream_name s.stream_name payload in
    let r' : Receiver = record r {
      stream_states = put_stream (record s { stream_name = name }) r.stream_states;
    } in
    after_parse f name r' ws (parse_bson_docs (suc (length rest)) rest)

count_inflated : Bytes → Receiver → Receiver
count_inflated p r = record r {
  stats = record r.stats { decompressed_bytes = r.stats.decompressed_bytes + length p };
}

after_unpack : Frame → StreamState → Receiver → List (Wait BatchQueueItem) → Unpacked → Handled
unfolding with_payload handle_error count_inflated
after_unpack f s r ws broken = returned (handle_error r)
after_unpack f s r ws (plain p) = with_payload f s r ws p
after_unpack f s r ws (inflated p) = with_payload f s (count_inflated p r) ws p

module _ (stream_label : ℕ → Bytes) where
  abbrev new_stream : ℕ → StreamState
  new_stream id = record {
    stream_id = id;
    stream_name = stream_label id;
    last_seq = 0;
    duplicate_batches = [];
  }

  stream_or_new : ℕ → Receiver → Option StreamState → StreamState × Receiver
  stream_or_new id r (some s) = (s, r)
  stream_or_new id r none =
      (new_stream id, record r { stream_states = put_stream (new_stream id) r.stream_states })

  -- `getOrCreateStreamState`.
  unfoldable pub get_or_create_stream_state : ℕ → Receiver → StreamState × Receiver
  unfolding stream_or_new
  get_or_create_stream_state id r = stream_or_new id r (find_stream id r.stream_states)

  module _ (decompressors : Decompressors) where
    -- `handleDocBatch` once the state of the stream is known.
    unfoldable pub process_batch :
        Frame → List (Wait BatchQueueItem) → StreamState × Receiver → Handled
    unfolding after_unpack send_ack unpack
    process_batch f ws (s, r) =
        let seq = f.header.batch_seq in
        let s' : StreamState = record s {
          duplicate_batches = seq ∷ s.duplicate_batches;
          last_seq = seq;
        } in
        let r' : Receiver = record r { stream_states = put_stream s' r.stream_states } in
        let fresh =
          after_unpack f s' r' ws (unpack decompressors (is_compressed f.header) f.payload) in
        if contains seq s.duplicate_batches
        then returned (send_ack f.header.stream_id seq r)
        else fresh

    -- `handleDocBatch`; the list says what happens while `Enqueue` waits.
    unfoldable pub handle_doc_batch : Receiver → Frame → List (Wait BatchQueueItem) → Handled
    unfolding process_batch get_or_create_stream_state
    handle_doc_batch r f ws = process_batch f ws (get_or_create_stream_state f.header.stream_id r)

  -- `handleResumeRequest`: the new state, and the response, if the request can be read.
  answer_resume : (Bytes → ℕ) → ResumeMessage → StreamState × Receiver → Receiver × Option Frame
  answer_resume crc64 msg (s, r) = (
    r,
    some (
        new_resume_response_frame crc64 msg.stream_id msg.from_seq
          (leb msg.from_seq ((s.last_seq + 1) % 2 ^ 64))),
  )

  unfoldable pub handle_resume_request : (Bytes → ℕ) → Receiver → Frame → Receiver × Option Frame
  unfolding answer_resume get_or_create_stream_state handle_error
  handle_resume_request crc64 r f = elim (decode_resume_message f.payload false) [
    | err e ↦ (handle_error r, none)
    | ok msg ↦ answer_resume crc64 msg (get_or_create_stream_state msg.stream_id r)
  ]

-- `r.checkpoints[stream]`, which is 0 for a stream that has none.
unfoldable pub lookup_checkpoint : Bytes → List (Bytes × ℕ) → ℕ
lookup_checkpoint stream [] = 0
lookup_checkpoint stream ((s, n) ∷ cs) =
    if bytes_eq s stream then n else lookup_checkpoint stream cs

unfoldable pub insert_checkpoint : Bytes → ℕ → List (Bytes × ℕ) → List (Bytes × ℕ)
insert_checkpoint stream seq [] = (stream, seq) ∷ []
insert_checkpoint stream seq ((s, n) ∷ cs) =
    if bytes_eq s stream then (stream, seq) ∷ cs else (s, n) ∷ insert_checkpoint stream seq cs

unfoldable pub get_checkpoint : Receiver → Bytes → ℕ
unfolding lookup_checkpoint
get_checkpoint r stream = lookup_checkpoint stream r.checkpoints

-- `SetCheckpoint` in memory; the file that it may write afterwards is left out.
unfoldable pub set_checkpoint : Bytes → ℕ → Receiver → Receiver
unfolding insert_checkpoint
set_checkpoint stream seq r = record r { checkpoints = insert_checkpoint stream seq r.checkpoints }

module _ (handler : BatchQueueItem → Bool) where
  -- What a worker does with an item: the handler writes it to the database, or fails.
  unfoldable pub process_item : BatchQueueItem → Receiver → Receiver
  unfolding set_checkpoint handle_error
  process_item item r =
      let r' = handle_error r in
      if handler item
      then set_checkpoint item.stream_name item.batch_seq r
      else record r' { stats = record r'.stats { error_count = r'.stats.error_count + 1 } }

  -- One round of `batchWorker`; `none` is the fault of an empty cell that is read as an item.
  on_dequeued : Receiver → Dequeued BatchQueueItem → Option Receiver
  unfolding process_item
  on_dequeued r (given (some item) q) = some (process_item item (record r { batch_queue = q }))
  on_dequeued r (given none q) = none
  on_dequeued r (empty_timeout q) = some (record r { batch_queue = q })
  on_dequeued r (Dequeued.shutting_down q) = some (record r { batch_queue = q })
  on_dequeued r (Dequeued.blocked q) = some (record r { batch_queue = q })

  unfoldable pub batch_worker : Receiver → List (Wait BatchQueueItem) → Option Receiver
  unfolding on_dequeued
  batch_worker r ws = on_dequeued r (dequeue r.batch_queue ws)
