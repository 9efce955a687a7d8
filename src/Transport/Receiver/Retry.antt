-- ===== src/Transport/Receiver/Retry.antt =====
-- pkg/transport/receiver.go: a batch that comes again.
use go_mongo_sync.Prelude.{ℕ, ◌≡◌, List, [], ◌∷◌}
use go_mongo_sync.Prelude.Bytes.{Bytes}
use go_mongo_sync.Transport.Protocol.{Frame}
use go_mongo_sync.Transport.Queue.{Wait}
use go_mongo_sync.Transport.Receiver.{
  Receiver, BatchQueueItem, Handled, returned, hung, waiting, Decompressors, send_ack,
  handle_doc_batch,
}
use go_mongo_sync.Transport.Receiver.Marks.{
  Marked, Leaves, handle_doc_batch-Marked, handle_doc_batch-keeps, handle_doc_batch-duplicate,
}

-- The receiver that a handler leaves, however it ends.
abbrev pub left_by : Handled → Receiver
left_by (returned r) = r
left_by (hung r) = r
left_by (waiting r) = r

left_by-Marked : (id seq : ℕ) (h : Handled) → Leaves (Marked id seq) h → Marked id seq (left_by h)
left_by-Marked id seq (returned r) m = m
left_by-Marked id seq (hung r) m = m
left_by-Marked id seq (waiting r) m = m

module _ (stream_label : ℕ → Bytes) (decompressors : Decompressors) where
  -- Batches that come one after another, on any streams, with what happens while each is queued.
  unfoldable pub handle_all : List (Frame × List (Wait BatchQueueItem)) → Receiver → Receiver
  handle_all [] r = r
  handle_all ((g, ws) ∷ gs) r =
      handle_all gs (left_by (handle_doc_batch stream_label decompressors r g ws))

  handle_all-Marked :
      (id seq : ℕ) (gs : List (Frame × List (Wait BatchQueueItem))) (r : Receiver)
      → Marked id seq r
      → Marked id seq (handle_all gs r)
  unfolding handle_all
  handle_all-Marked id seq [] r m = m
  handle_all-Marked id seq ((g, ws) ∷ gs) r m =
      handle_all-Marked id seq gs (left_by (handle_doc_batch stream_label decompressors r g ws)) (
        left_by-Marked id seq (handle_doc_batch stream_label decompressors r g ws)
          (handle_doc_batch-keeps stream_label decompressors id seq r g ws m))

  -- A batch that comes again, after any first handling however it ended and whatever batches of any
  -- streams were handled since, is acknowledged and changes nothing else: it is not queued a second
  -- time, nor for the first time.
  pub handle_doc_batch-again :
      (r : Receiver) (f : Frame) (ws ws' : List (Wait BatchQueueItem))
      (between : List (Frame × List (Wait BatchQueueItem)))
      → let r' =
          handle_all between (left_by (handle_doc_batch stream_label decompressors r f ws)) in
        handle_doc_batch stream_label decompressors r' f ws'
        ≡ returned (send_ack f.header.stream_id f.header.batch_seq r')
  handle_doc_batch-again r f ws ws' between =
      handle_doc_batch-duplicate stream_label decompressors
        (handle_all between (left_by (handle_doc_batch stream_label decompressors r f ws))) f ws'
        (handle_all-Marked f.header.stream_id f.header.batch_seq between
          (left_by (handle_doc_batch stream_label decompressors r f ws))
          (left_by-Marked f.header.stream_id f.header.batch_seq
            (handle_doc_batch stream_label decompressors r f ws)
            (handle_doc_batch-Marked stream_label decompressors r f ws)))
