-- ===== src/Transport/Sender/Sending.antt =====
-- pkg/transport/sender.go and receiver.go: a batch of documents on its whole way, from the
-- sender's call to the receiver's queue.
use go_mongo_sync.Prelude.{
  ℕ, suc, ◌+◌, ◌*◌, ◌^◌, ◌%◌, ◌≤◌, ◌<◌, ◌≡◌, refl, ◌∙◌, Bool, true, false, ◌⊎◌, inl, inr, lt→ltb,
  ◌==◌, Option, some, List, [], ◌∷◌, ◌++◌, arith, le→ltb, length, All, append-nil,
}
use go_mongo_sync.Prelude.Bytes.{Bytes}
use go_mongo_sync.Transport.Protocol.{
  Frame, encode_frame, encode_header, new_doc_batch_frame, frame_header_size, max_frame_size,
}
use go_mongo_sync.Transport.Protocol.Frames.{new_doc_batch_frame-IsSound, new_doc_batch_frame_flags}
use go_mongo_sync.Transport.Payload.{batch_payload, max_stream_name}
use go_mongo_sync.Transport.Payload.RoundTrip.{IsDocument, length-batch_payload}
use go_mongo_sync.Transport.Loop.{bytes, Counters, handle_loop, conn_size}
use go_mongo_sync.Transport.Loop.Delivery.{IsSendable, Arrives, done, joined, handle_loop_delivers}
use go_mongo_sync.Transport.Receiver.{
  Receiver, Decompressors, BatchQueueItem, returned, handle_doc_batch,
}
use go_mongo_sync.Transport.Receiver.Delivery.{
  IsPlainBatch, IsQueued, IsNew, handle_doc_batch_queues,
}
use go_mongo_sync.Transport.Queue.{Wait}
use go_mongo_sync.Transport.Sender.{
  Sender, SenderConfig, Event, Sent, HandOver, taken, opened, acked, notified, timed_out, shutdown,
  wait_for_window, after_window, send_standard_batch, send_batch, first_of_script, large_batch,
  send_chosen, choose_payload, hand_over, count_compressed, hash_stream_name, hash_from,
}

hash_from-lt : (hash : ℕ) (cs : Bytes) → hash < 2 ^ 64 → hash_from hash cs < 2 ^ 64
unfolding hash_from
hash_from-lt hash [] h = h
hash_from-lt hash (c ∷ cs) h =
    hash_from-lt ((hash * 32 % 2 ^ 64 + hash + c) % 2 ^ 64) cs (omega arith)

-- A stream's number fits in 64 bits.
pub hash_stream_name-lt : (stream : Bytes) → hash_stream_name stream < 2 ^ 64
unfolding hash_stream_name
hash_stream_name-lt stream = hash_from-lt 5381 stream (omega arith)

nonzero : (n : ℕ) → 0 < n → (n == 0) ≡ false
nonzero n h = ground arith

wait_for_window-opens :
    (window : ℕ) (s : Sender) (es : List Event)
    → length s.stream.pending_batches < window
    → wait_for_window window s es ≡ opened s
unfolding wait_for_window
wait_for_window-opens window s [] h = rw (lt→ltb (length s.stream.pending_batches) window h) refl
wait_for_window-opens window s (acked a ∷ es) h =
    rw (lt→ltb (length s.stream.pending_batches) window h) refl
wait_for_window-opens window s (notified ∷ es) h =
    rw (lt→ltb (length s.stream.pending_batches) window h) refl
wait_for_window-opens window s (timed_out ∷ es) h =
    rw (lt→ltb (length s.stream.pending_batches) window h) refl
wait_for_window-opens window s (shutdown ∷ es) h =
    rw (lt→ltb (length s.stream.pending_batches) window h) refl

module _ (crc64 : Bytes → ℕ) (crc64-lt : (xs : Bytes) → crc64 xs < 256 ^ 8)
    (compress : Bytes → Option Bytes) (config : SenderConfig) (stream : Bytes) (docs : List Bytes)
    (s : Sender) where
  -- The frame of the batch.
  abbrev pub frame_of : Frame
  frame_of =
      new_doc_batch_frame crc64 s.stream.stream_id s.stream.next_seq (batch_payload stream docs)
        false true

  -- What the way of a batch asks for: no compression, a name that the receiver can find, documents
  -- that carry their sizes, not more of them than one batch has, and a payload within both limits.
  pub record IsSendableBatch : Type 0 where
    pub uncompressed : config.compression ≡ false
    pub named : 0 < length stream
    pub short_name : length stream < max_stream_name
    pub documents : All IsDocument docs
    pub within_batch : length (batch_payload stream docs) ≤ config.max_batch_size
    pub within_frame : frame_header_size + length (batch_payload stream docs) ≤ max_frame_size
    pub id_fits : s.stream.stream_id < 256 ^ 8
    pub seq_fits : s.stream.next_seq + 1 < 256 ^ 8
    pub some_documents : 0 < length docs
    pub not_large : length docs ≤ large_batch crc64 compress config stream

  module _ (b : IsSendableBatch) where
    frame_of-IsPlainBatch : IsPlainBatch frame_of stream docs
    frame_of-IsPlainBatch = record {
      uncompressed =
          (new_doc_batch_frame_flags crc64 s.stream.stream_id s.stream.next_seq
            (batch_payload stream docs) false true).0;
      packed = unfold new_doc_batch_frame in refl;
      named = b.named;
      short_name = b.short_name;
      documents = b.documents;
    }

    frame_of-IsSendable : IsSendable crc64 config.max_batch_size frame_of
    frame_of-IsSendable = record {
      sound =
          new_doc_batch_frame-IsSound crc64 crc64-lt s.stream.stream_id s.stream.next_seq
            (batch_payload stream docs) false true b.id_fits (omega (arith, b.seq_fits))
            b.within_frame;
      unreserved = unfold new_doc_batch_frame in refl;
      fits = unfold new_doc_batch_frame in b.within_batch;
    }

    -- The sender once the frame is handed over: one more frame, the next sequence number taken and
    -- the batch pending.
    abbrev pub handed_over : Sender
    handed_over = record s {
      stream = record s.stream {
        next_seq = (s.stream.next_seq + 1) % 2 ^ 64;
        pending_batches = (s.stream.next_seq, encode_frame frame_of) ∷ s.stream.pending_batches;
      };
      stats = record s.stats {
        bytes_sent = s.stats.bytes_sent + length (batch_payload stream docs);
        batches_sent = s.stats.batches_sent + 1;
        documents_sent = s.stats.documents_sent + length docs;
      };
      written = frame_of ∷ s.written;
    }

    -- The window does not keep the call waiting.
    abbrev pub IsOpen : Bool → Type 0
    IsOpen async = (async ≡ true) ⊎ (length s.stream.pending_batches < config.window_size)

    send_standard_batch_sends :
        (async : Bool) (es : List Event)
        → IsOpen async
        → send_standard_batch crc64 compress config stream docs async es taken s
          ≡ Sent.done handed_over
    unfolding send_standard_batch send_chosen choose_payload hand_over count_compressed
        new_doc_batch_frame after_window
    send_standard_batch_sends true es window =
        rw
          (
            le→ltb config.max_batch_size (length (batch_payload stream docs)) b.within_batch,
            b.uncompressed,
          )
          refl
    send_standard_batch_sends false es (inl closed) = absurd cc
    send_standard_batch_sends false es (inr space) =
        rw
          (
            le→ltb config.max_batch_size (length (batch_payload stream docs)) b.within_batch,
            b.uncompressed,
            wait_for_window-opens config.window_size
                (record s {
                  stream = record s.stream { next_seq = (s.stream.next_seq + 1) % 2 ^ 64 };
                })
                es space,
          )
          refl

    -- `sendBatch` on such a batch is one call of `sendStandardBatch`.
    pub send_batch_sends :
        (async : Bool) (es : List Event) (script : List (List Event × HandOver))
        → IsOpen async
        → send_batch crc64 compress config stream false ((es, taken) ∷ script) docs async s
          ≡ Sent.done handed_over
    unfolding send_batch first_of_script
    send_batch_sends async es script window =
        rw
          (
            nonzero (length docs) b.some_documents,
            le→ltb (large_batch crc64 compress config stream) (length docs) b.not_large,
          )
          (send_standard_batch_sends async es window)

    encode_frame_of :
        encode_frame frame_of ≡ encode_header frame_of.header ++ batch_payload stream docs
    unfolding encode_frame new_doc_batch_frame
    encode_frame_of = ground (arith, length-batch_payload stream docs)

    frame_of-Arrives :
        Arrives crc64 config.max_batch_size (frame_of ∷ []) (bytes (encode_frame frame_of) ∷ [])
    frame_of-Arrives = rw encode_frame_of (
        joined frame_of (batch_payload stream docs) [] frame_of-IsSendable
          (omega (arith, length-batch_payload stream docs)) tt
          (append-nil (batch_payload stream docs) ∙ (unfold new_doc_batch_frame in refl)) done)

    -- The bytes of the frame, read in one piece, reach the receiver's handlers as that frame.
    pub handle_loop-frame_of :
        (k : Counters)
        → handle_loop crc64 config.max_batch_size
            (suc (conn_size (bytes (encode_frame frame_of) ∷ [])))
            k
            (bytes (encode_frame frame_of) ∷ [])
          ≡ some (frame_of ∷ [])
    handle_loop-frame_of k =
        handle_loop_delivers crc64 config.max_batch_size _ k frame_of-Arrives (omega arith)

    -- `sendBatch`, asynchronous or with space in its window, of at most 10,000 documents under a short
    -- name that are not compressed and fit in a frame, handed over to a connection and its one frame
    -- read in one piece by a receiver to which the batch is new and whose queue has space: the
    -- documents come to stand in that queue, exactly they and under their stream's name, and are
    -- acknowledged; the call returns without an error, with the batch pending.
    pub send_to_queue :
        (async : Bool) (es : List Event) (script : List (List Event × HandOver)) (k : Counters)
        (stream_label : ℕ → Bytes) (decompressors : Decompressors) (r : Receiver)
        (ws : List (Wait BatchQueueItem))
        → IsOpen async
        → IsNew stream_label decompressors r frame_of
        → r.batch_queue.size < r.batch_queue.capacity
        → (s' : Sender) × (send_batch crc64 compress config stream false
              ((es, taken) ∷ script)
              docs
              async
              s
            ≡ Sent.done s')
          × (s'.written ≡ frame_of ∷ s.written)
          × (s'.stream.pending_batches
              ≡ (s.stream.next_seq, encode_frame frame_of) ∷ s.stream.pending_batches)
          × (handle_loop crc64 config.max_batch_size
                (suc (conn_size (bytes (encode_frame frame_of) ∷ [])))
                k
                (bytes (encode_frame frame_of) ∷ [])
              ≡ some (frame_of ∷ []))
          × ((r' : Receiver) × (handle_doc_batch stream_label decompressors r frame_of ws
                ≡ returned r')
              × IsQueued frame_of stream docs r r')
    send_to_queue async es script k label decompressors r ws window fresh space = (
      handed_over,
      send_batch_sends async es script window,
      refl,
      refl,
      handle_loop-frame_of k,
      handle_doc_batch_queues label decompressors r frame_of stream docs frame_of-IsPlainBatch fresh
          ws space,
    )
