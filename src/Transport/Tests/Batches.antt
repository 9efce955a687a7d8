-- ===== src/Transport/Tests/Batches.antt =====
-- Runs of whole batches: the sender, the receiver and its workers.
use go_mongo_sync.Prelude.{
  inl, suc, ◌+◌, ◌≡◌, refl, Bool, true, false, some, List, [], ◌∷◌, arith, leb,
}
use go_mongo_sync.Prelude.Bytes.{Bytes}
use go_mongo_sync.Transport.Protocol.{
  Frame, AckMessage, new_doc_batch_frame, is_compressed, encode_frame,
}
use go_mongo_sync.Transport.Payload.{batch_payload}
use go_mongo_sync.Transport.Loop.{bytes, fresh, handle_loop, conn_size}
use go_mongo_sync.Transport.Queue.{tick, added, deadline}
use go_mongo_sync.Transport.Queue.Waiting.{IsDropped}
use go_mongo_sync.Transport.Receiver.{
  Receiver, BatchQueueItem, returned, handle_doc_batch, send_ack, find_stream,
  get_or_create_stream_state, contains,
}
use go_mongo_sync.Transport.Receiver.Delivery.{
  IsPlainBatch, IsQueued, IsNew, handle_doc_batch_queues, handle_doc_batch_loses,
}
use go_mongo_sync.Transport.Receiver.Retry.{left_by, handle_all, handle_doc_batch-again}
use go_mongo_sync.Transport.Receiver.Workers.{rounds, rounds_drain, Drained}
use go_mongo_sync.Transport.Sender.{
  Sender, Sent, taken, acked, timed_out, send_standard_batch, send_batch, apply_ack, has_pending,
  wait_for_ack,
}
use go_mongo_sync.Transport.Sender.Acks.{wait_for_ack-later}
use go_mongo_sync.Transport.Sender.Window.{
  AfterSend, IsOrdered, InWindow, send_standard_batch-IsOrdered,
}
use go_mongo_sync.Transport.Sender.Sending.{IsSendableBatch, send_to_queue}
use go_mongo_sync.Transport.Tests.Samples.{
  crc, crc-lt, no_compress, stream, doc, doc-IsDocument, config, sender, label, no_decompressors,
  receiver, full_receiver, item,
}
use go_mongo_sync.Transport.Tests.Queues.{full_queue-Represents}

abbrev docs : List Bytes
docs = doc ∷ doc ∷ []

batch-IsSendableBatch : IsSendableBatch crc crc-lt no_compress config stream docs sender
batch-IsSendableBatch = record {
  uncompressed = refl;
  named = omega arith;
  short_name = omega arith;
  documents = (doc-IsDocument, (doc-IsDocument, tt));
  within_batch = unfold batch_payload in omega arith;
  within_frame = unfold batch_payload in omega arith;
  id_fits = omega arith;
  seq_fits = omega arith;
  some_documents = omega arith;
  not_large = omega arith;
}

abbrev frame : Frame
frame = new_doc_batch_frame crc 7 3 (batch_payload stream docs) false true

-- The next batch of the same stream.
abbrev other_frame : Frame
other_frame = new_doc_batch_frame crc 7 4 (batch_payload stream docs) false true

frame-IsPlainBatch : IsPlainBatch frame stream docs
frame-IsPlainBatch = record {
  uncompressed = unfold new_doc_batch_frame is_compressed in refl;
  packed = unfold new_doc_batch_frame in refl;
  named = omega arith;
  short_name = omega arith;
  documents = (doc-IsDocument, (doc-IsDocument, tt));
}

frame-IsNew : IsNew label no_decompressors receiver frame
unfolding get_or_create_stream_state find_stream contains
frame-IsNew = refl

frame-IsNew_full : IsNew label no_decompressors full_receiver frame
unfolding get_or_create_stream_state find_stream contains
frame-IsNew_full = refl

send_to_queue_example :
    (s' : Sender) × (send_batch crc no_compress config stream false
        (([], taken) ∷ [])
        docs
        true
        sender
      ≡ Sent.done s')
    × (s'.written ≡ frame ∷ sender.written)
    × (s'.stream.pending_batches ≡ (3, encode_frame frame) ∷ sender.stream.pending_batches)
    × (handle_loop crc config.max_batch_size
          (suc (conn_size (bytes (encode_frame frame) ∷ [])))
          fresh
          (bytes (encode_frame frame) ∷ [])
        ≡ some (frame ∷ []))
    × ((r' : Receiver) × (handle_doc_batch label no_decompressors receiver frame [] ≡ returned r')
        × IsQueued frame stream docs receiver r')
send_to_queue_example =
    send_to_queue crc crc-lt no_compress config stream docs sender batch-IsSendableBatch true [] []
      fresh label no_decompressors receiver [] (inl refl) frame-IsNew (omega arith)

handle_doc_batch_queues_example :
    (r' : Receiver) × (handle_doc_batch label no_decompressors receiver frame (deadline ∷ [])
      ≡ returned r')
    × IsQueued frame stream docs receiver r'
handle_doc_batch_queues_example =
    handle_doc_batch_queues label no_decompressors receiver frame stream docs frame-IsPlainBatch
      frame-IsNew (deadline ∷ []) (omega arith)

handle_doc_batch_loses_example :
    (r' : Receiver) × (handle_doc_batch label no_decompressors full_receiver frame
        (tick ∷ added (item 5) ∷ tick ∷ deadline ∷ [])
      ≡ returned r')
    × IsDropped full_receiver.batch_queue r'.batch_queue
    × (r'.acks ≡ full_receiver.acks)
    × (r'.stats.error_count ≡ full_receiver.stats.error_count + 2)
    × (let later = handle_all label no_decompressors ((other_frame, deadline ∷ []) ∷ []) r' in
        handle_doc_batch label no_decompressors later frame []
        ≡ returned (send_ack frame.header.stream_id frame.header.batch_seq later))
handle_doc_batch_loses_example =
    handle_doc_batch_loses label no_decompressors full_receiver frame stream docs frame-IsPlainBatch
      frame-IsNew_full (tick ∷ added (item 5) ∷ tick ∷ deadline ∷ []) []
      ((other_frame, deadline ∷ []) ∷ []) (omega arith) refl

handle_doc_batch-again_example :
    let r' =
      handle_all label no_decompressors
        ((other_frame, []) ∷ [])
        (left_by (handle_doc_batch label no_decompressors receiver frame [])) in
    handle_doc_batch label no_decompressors r' frame []
    ≡ returned (send_ack frame.header.stream_id frame.header.batch_seq r')
handle_doc_batch-again_example =
    handle_doc_batch-again label no_decompressors receiver frame [] [] ((other_frame, []) ∷ [])

-- The handler fails on batch 1 and writes batch 2.
abbrev handler : BatchQueueItem → Bool
handler x = leb 2 x.batch_seq

rounds_drain_example :
    (r' : Receiver) × (rounds handler 2 full_receiver ≡ some r')
    × Drained handler (item 1 ∷ item 2 ∷ []) full_receiver r'
rounds_drain_example =
    rounds_drain handler (item 1 ∷ item 2 ∷ []) full_receiver full_queue-Represents

abbrev ack : AckMessage
ack = record { stream_id = 7; ack_up_to = 2 }

wait_for_ack-later_example :
    (wait_for_ack 1 sender (acked ack ∷ []) ≡ Sent.done (apply_ack ack sender))
    × (has_pending 1 (apply_ack ack sender).stream.pending_batches ≡ false)
unfolding has_pending
wait_for_ack-later_example = wait_for_ack-later sender 1 ack [] refl refl (omega arith)

send_standard_batch-IsOrdered_example :
    AfterSend IsOrdered (InWindow crc no_compress config stream) (
      send_standard_batch crc no_compress config stream docs false
        (acked ack ∷ timed_out ∷ [])
        taken
        sender)
send_standard_batch-IsOrdered_example =
    send_standard_batch-IsOrdered crc no_compress config stream docs (acked ack ∷ timed_out ∷ [])
      taken sender (omega arith) (omega arith)
