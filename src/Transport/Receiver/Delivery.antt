-- ===== src/Transport/Receiver/Delivery.antt =====
-- pkg/transport/receiver.go: a batch that `sendStandardBatch` built and did not compress, from the
-- frame to the queue.
use go_mongo_sync.Prelude.{
  ℕ, suc, ◌+◌, ◌≤◌, ◌<◌, ◌≡◌, refl, subst, ap, ◌∙◌, true, false, some, List, [], ◌∷◌, length, All,
  arith, length-append,
}
use go_mongo_sync.Prelude.Bytes.{Bytes}
use go_mongo_sync.Prelude.Result.{ok}
use go_mongo_sync.Transport.Protocol.{Frame, is_compressed}
use go_mongo_sync.Transport.Payload.{concatenate_bson_docs, batch_payload, max_stream_name}
use go_mongo_sync.Transport.Payload.RoundTrip.{
  IsDocument, parse_bson_docs-concatenate_bson_docs, split_stream_name-batch_payload,
}
use go_mongo_sync.Transport.Queue.{Queue, Wait, put, enqueue}
use go_mongo_sync.Transport.Queue.Waiting.{enqueue-space, waits_out, IsDropped, enqueue-waits_out}
use go_mongo_sync.Transport.Receiver.{
  StreamState, ReceiverStats, Receiver, BatchQueueItem, returned, Decompressors, contains,
  put_stream, send_ack, after_enqueue, after_parse, with_payload, after_unpack, unpack,
  get_or_create_stream_state, process_batch, handle_doc_batch, handle_error,
}
use go_mongo_sync.Transport.Receiver.Retry.{left_by, handle_all, handle_doc_batch-again}

length-docs-le :
    (docs : List Bytes) → All IsDocument docs → length docs ≤ length (concatenate_bson_docs docs)
unfolding concatenate_bson_docs
length-docs-le [] h = omega arith
length-docs-le (doc ∷ docs) h =
    omega
      (arith, h.0.headed, length-append doc (concatenate_bson_docs docs), length-docs-le docs h.1)

-- An uncompressed batch of the documents `docs` of the stream `stream`.
pub record IsPlainBatch (f : Frame) (stream : Bytes) (docs : List Bytes) : Type 0 where
  pub uncompressed : is_compressed f.header ≡ false
  pub packed : f.payload ≡ batch_payload stream docs
  pub named : 0 < length stream
  pub short_name : length stream < max_stream_name
  pub documents : All IsDocument docs

abbrev item_of : Frame → Bytes → List Bytes → BatchQueueItem
item_of f stream docs = record {
  stream_name = stream;
  batch_seq = f.header.batch_seq;
  documents = docs;
}

-- The receiver just before `Enqueue`: the batch is marked and counted.
abbrev before_enqueue : Frame → Bytes → List Bytes → StreamState → Receiver → Receiver
before_enqueue f stream docs s r =
    let seq = f.header.batch_seq in
    let s' : StreamState = record s {
      duplicate_batches = seq ∷ s.duplicate_batches;
      last_seq = seq;
    } in
    let ss = put_stream s' r.stream_states in
    record r {
      stream_states = put_stream (record s' { stream_name = stream }) ss;
      stats = record r.stats {
        bytes_received = r.stats.bytes_received + length f.payload;
        batches_received = r.stats.batches_received + 1;
        documents_received = r.stats.documents_received + length docs;
      };
    }

module _ (f : Frame) (stream : Bytes) (docs : List Bytes) (b : IsPlainBatch f stream docs)
    (ws : List (Wait BatchQueueItem)) where
  with_payload-plain :
      (s : StreamState) (r : Receiver)
      → with_payload f s r ws f.payload
        ≡ after_parse f stream
            (record r {
              stream_states = put_stream (record s { stream_name = stream }) r.stream_states;
            })
            ws
            (some (ok docs))
  unfolding with_payload
  with_payload-plain s r =
      rw
        (
          b.packed,
          split_stream_name-batch_payload stream docs s.stream_name b.named b.short_name,
          parse_bson_docs-concatenate_bson_docs docs (suc (length (concatenate_bson_docs docs)))
              b.documents (omega (arith, length-docs-le docs b.documents)),
        )
        refl

  module _ (stream_label : ℕ → Bytes) (decompressors : Decompressors) where
    process_batch-plain :
        (s : StreamState) (r : Receiver)
        → contains f.header.batch_seq s.duplicate_batches ≡ false
        → process_batch stream_label decompressors f ws (s, r)
          ≡ after_enqueue f.header.stream_id f.header.batch_seq
              (before_enqueue f stream docs s r)
              (enqueue r.batch_queue (item_of f stream docs) ws)
    unfolding process_batch after_unpack unpack after_parse
    process_batch-plain s r unseen = rw (unseen, b.uncompressed) (with_payload-plain _ _)

-- What the handling of a batch that finds space in the queue has done.
pub record IsQueued (f : Frame) (stream : Bytes) (docs : List Bytes) (r r' : Receiver)
    : Type 0 where
  pub queued : r'.batch_queue ≡ put r.batch_queue (item_of f stream docs)
  pub acked : r'.acks ≡ (f.header.stream_id, f.header.batch_seq) ∷ r.acks
  pub no_error : r'.stats.error_count ≡ r.stats.error_count
  pub counted : r'.stats.documents_received ≡ r.stats.documents_received + length docs

module _ (stream_label : ℕ → Bytes) (decompressors : Decompressors) (r : Receiver) (f : Frame) where
  abbrev pub stream_of : StreamState
  stream_of = (get_or_create_stream_state stream_label f.header.stream_id r).0

  abbrev known : Receiver
  known = (get_or_create_stream_state stream_label f.header.stream_id r).1

  -- The sequence number has not come on this stream before.
  abbrev pub IsNew : Type 0
  IsNew = contains f.header.batch_seq stream_of.duplicate_batches ≡ false

  queue-known : known.batch_queue ≡ r.batch_queue
  unfolding get_or_create_stream_state
  queue-known = ground arith

  acks-known : known.acks ≡ r.acks
  unfolding get_or_create_stream_state
  acks-known = ground arith

  stats-known : known.stats ≡ r.stats
  unfolding get_or_create_stream_state
  stats-known = ground arith

  module _ (stream : Bytes) (docs : List Bytes) (b : IsPlainBatch f stream docs)
      (fresh : IsNew) where
    abbrev marked : Receiver
    marked = before_enqueue f stream docs stream_of known

    handle_doc_batch-plain :
        (ws : List (Wait BatchQueueItem))
        → handle_doc_batch stream_label decompressors r f ws
          ≡ after_enqueue f.header.stream_id f.header.batch_seq marked
              (enqueue r.batch_queue (item_of f stream docs) ws)
    unfolding handle_doc_batch
    handle_doc_batch-plain ws =
        process_batch-plain f stream docs b ws stream_label decompressors stream_of known fresh
        ∙ ap
            (λ q.
              after_enqueue f.header.stream_id f.header.batch_seq marked
                (enqueue q (item_of f stream docs) ws))
            queue-known

    -- A new batch that finds space in the queue is put behind the others, under its stream's name,
    -- its sequence number and with exactly its documents; it is acknowledged once, its documents
    -- are counted and no error is.
    pub handle_doc_batch_queues :
        (ws : List (Wait BatchQueueItem))
        → r.batch_queue.size < r.batch_queue.capacity
        → (r' : Receiver) × (handle_doc_batch stream_label decompressors r f ws ≡ returned r')
          × IsQueued f stream docs r r'
    unfolding after_enqueue
    handle_doc_batch_queues ws space = (
      send_ack f.header.stream_id f.header.batch_seq
          (record marked { batch_queue = put r.batch_queue (item_of f stream docs) }),
      handle_doc_batch-plain ws
          ∙ ap (after_enqueue f.header.stream_id f.header.batch_seq marked)
              (enqueue-space r.batch_queue (item_of f stream docs) ws space),
      record {
        queued = refl;
        acked = ap (λ a. (f.header.stream_id, f.header.batch_seq) ∷ a) acks-known;
        no_error = ap (λ (t : ReceiverStats). t.error_count) stats-known;
        counted = ap (λ (t : ReceiverStats). t.documents_received + length docs) stats-known;
      },
    )

    -- The receiver when `Enqueue` has failed.
    without_batch : Queue BatchQueueItem → Receiver
    without_batch q =
        let r' = handle_error (record marked { batch_queue = q }) in
        record r' { stats = record r'.stats { error_count = r'.stats.error_count + 1 } }

    -- A batch that finds the queue full, with nobody taking an item out until the deadline, is lost:
    -- it is not queued and not acknowledged, the failure is counted twice, and when it comes again,
    -- whatever batches were handled since, it is acknowledged without being queued, whatever space
    -- there is by then.
    pub handle_doc_batch_loses :
        (ws ws' : List (Wait BatchQueueItem)) (between : List (Frame × List (Wait BatchQueueItem)))
        → r.batch_queue.capacity ≤ r.batch_queue.size
        → waits_out ws ≡ true
        → (r' : Receiver) × (handle_doc_batch stream_label decompressors r f ws ≡ returned r')
          × IsDropped r.batch_queue r'.batch_queue
          × (r'.acks ≡ r.acks)
          × (r'.stats.error_count ≡ r.stats.error_count + 2)
          × (let later = handle_all stream_label decompressors between r' in
              handle_doc_batch stream_label decompressors later f ws'
              ≡ returned (send_ack f.header.stream_id f.header.batch_seq later))
    unfolding without_batch handle_error after_enqueue
    handle_doc_batch_loses ws ws' between full out =
        let (q, timeout, dropped) =
          enqueue-waits_out r.batch_queue (item_of f stream docs) ws full out in
        let lost : handle_doc_batch stream_label decompressors r f ws ≡ returned (without_batch q) =
          handle_doc_batch-plain ws
          ∙ ap (after_enqueue f.header.stream_id f.header.batch_seq marked) timeout in
        (
          without_batch q,
          lost,
          dropped,
          acks-known,
          ap (λ (t : ReceiverStats). t.error_count + 1 + 1) stats-known ∙ omega arith,
          subst
              (λ h.
                let later = handle_all stream_label decompressors between (left_by h) in
                handle_doc_batch stream_label decompressors later f ws'
                ≡ returned (send_ack f.header.stream_id f.header.batch_seq later))
              lost (handle_doc_batch-again stream_label decompressors r f ws ws' between),
        )
