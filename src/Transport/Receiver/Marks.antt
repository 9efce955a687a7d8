-- ===== src/Transport/Receiver/Marks.antt =====
-- pkg/transport/receiver.go: which batches a receiver has met. `handleDocBatch` marks the sequence
-- number of a batch before it unpacks, parses and queues it.
use go_mongo_sync.Transport.Receiver.Streams.{
  find_stream-put_stream, find_stream_id, find_stream-other, some_injective, contains_later,
  contains_self,
}
use go_mongo_sync.Prelude.{
  ℕ, ◌+◌, ◌≡◌, length, refl, sym, ap, ◌∙◌, true, ==_iff, Bool-cases, inl, inr, Option, none, some,
  List, ◌∷◌, ◌==◌,
}
use go_mongo_sync.Prelude.Bytes.{Bytes}
use go_mongo_sync.Prelude.Result.{ok, err}
use go_mongo_sync.Transport.Protocol.{Frame}
use go_mongo_sync.Transport.Payload.{Parsed, split_stream_name}
use go_mongo_sync.Transport.Queue.{
  Wait, Enqueued, accepted, full_timeout, shutting_down, blocked, enqueue,
}
use go_mongo_sync.Transport.Receiver.{
  StreamState, Receiver, BatchQueueItem, Handled, returned, hung, waiting, Unpacked, plain,
  inflated, broken, Decompressors, contains, find_stream, put_stream, send_ack, after_enqueue,
  after_parse, with_payload, count_inflated, after_unpack, new_stream, stream_or_new,
  get_or_create_stream_state, process_batch, handle_doc_batch,
}

-- The receiver has met the batch `seq` of the stream `id`.
pub record Marked (id seq : ℕ) (r : Receiver) : Type 0 where
  pub state : StreamState
  pub found : find_stream id r.stream_states ≡ some state
  pub seen : contains seq state.duplicate_batches ≡ true

module _ (P : Receiver → Type 0) where
  -- what a handler leaves, however it ends
  abbrev pub Leaves : Handled → Type 0
  Leaves (returned r) = P r
  Leaves (hung r) = P r
  Leaves (waiting r) = P r

module _ (id seq : ℕ) where
  -- Only the states of the streams count.
  same_streams :
      {r r' : Receiver} → r.stream_states ≡ r'.stream_states → Marked id seq r → Marked id seq r'
  same_streams e m = record { state = m.state; found = rw e at m.found; seen = m.seen }

  after_enqueue-Marked :
      (i n : ℕ) (r : Receiver) (e : Enqueued BatchQueueItem)
      → Marked id seq r
      → Leaves (Marked id seq) (after_enqueue i n r e)
  unfolding after_enqueue
  after_enqueue-Marked i n r (accepted q) m = same_streams refl m
  after_enqueue-Marked i n r (full_timeout q) m = same_streams refl m
  after_enqueue-Marked i n r (shutting_down q) m = same_streams refl m
  after_enqueue-Marked i n r (blocked q) m = same_streams refl m

  after_parse-Marked :
      (f : Frame) (name : Bytes) (r : Receiver) (ws : List (Wait BatchQueueItem)) (p : Parsed)
      → Marked id seq r
      → Leaves (Marked id seq) (after_parse f name r ws p)
  unfolding after_parse
  after_parse-Marked f name r ws none m = m
  after_parse-Marked f name r ws (some (err e)) m = same_streams refl m
  after_parse-Marked f name r ws (some (ok docs)) m =
      let r' : Receiver = record r {
        stats = record r.stats {
          bytes_received = r.stats.bytes_received + length f.payload;
          batches_received = r.stats.batches_received + 1;
          documents_received = r.stats.documents_received + length docs;
        };
      } in
      after_enqueue-Marked _ _ r' (enqueue r.batch_queue _ ws) (same_streams refl m)

  put_stream-Marked :
      (t : StreamState) (r : Receiver)
      → t.stream_id ≡ id
      → contains seq t.duplicate_batches ≡ true
      → Marked id seq (record r { stream_states = put_stream t r.stream_states })
  put_stream-Marked t r e h = record {
    state = t;
    found =
        ap (λ i. find_stream i (put_stream t r.stream_states)) (sym e)
        ∙ find_stream-put_stream t r.stream_states;
    seen = h;
  }

  -- A state of a stream that forgets no mark of this batch.
  abbrev Remembers : StreamState → Type 0
  Remembers t = t.stream_id ≡ id → contains seq t.duplicate_batches ≡ true

  put_stream-keeps :
      (t : StreamState) (r : Receiver)
      → Remembers t
      → Marked id seq r
      → Marked id seq (record r { stream_states = put_stream t r.stream_states })
  put_stream-keeps t r h m = elim (Bool-cases (t.stream_id == id)) [
    | inl e ↦ put_stream-Marked t r ((==_iff t.stream_id id).0 e) (h ((==_iff t.stream_id id).0 e))
    | inr ne ↦ record {
      state = m.state;
      found = find_stream-other id t r.stream_states ne ∙ m.found;
      seen = m.seen;
    }
  ]

  with_payload-Marked :
      (f : Frame) (s : StreamState) (r : Receiver) (ws : List (Wait BatchQueueItem)) (p : Bytes)
      → Remembers s
      → Marked id seq r
      → Leaves (Marked id seq) (with_payload f s r ws p)
  unfolding with_payload
  with_payload-Marked f s r ws p h m =
      after_parse-Marked f _ _ ws _
        (put_stream-keeps (record s { stream_name = (split_stream_name s.stream_name p).0 }) r h m)

  after_unpack-Marked :
      (f : Frame) (s : StreamState) (r : Receiver) (ws : List (Wait BatchQueueItem)) (u : Unpacked)
      → Remembers s
      → Marked id seq r
      → Leaves (Marked id seq) (after_unpack f s r ws u)
  unfolding after_unpack
  after_unpack-Marked f s r ws broken h m = same_streams refl m
  after_unpack-Marked f s r ws (plain p) h m = with_payload-Marked f s r ws p h m
  after_unpack-Marked f s r ws (inflated p) h m =
      with_payload-Marked f s (count_inflated p r) ws p h (same_streams refl m)

  Marked-Remembers :
      (s : StreamState) (r : Receiver)
      → find_stream s.stream_id r.stream_states ≡ some s
      → Marked id seq r
      → Remembers s
  Marked-Remembers s r found m e =
      ap (λ (t : StreamState). contains seq t.duplicate_batches)
        (some_injective (sym found ∙ (ap (λ i. find_stream i r.stream_states) e ∙ m.found)))
      ∙ m.seen

module _ (stream_label : ℕ → Bytes) (decompressors : Decompressors) where
  process_batch-Marked :
      (f : Frame) (ws : List (Wait BatchQueueItem)) (s : StreamState) (r : Receiver)
      → find_stream f.header.stream_id r.stream_states ≡ some s
      → Leaves
          (Marked f.header.stream_id f.header.batch_seq)
          (process_batch stream_label decompressors f ws (s, r))
  unfolding process_batch
  process_batch-Marked f ws s r found =
      elim (Bool-cases (contains f.header.batch_seq s.duplicate_batches)) [
        | inl seen ↦ rw seen (record { state = s; found = found; seen = seen })
        | inr unseen ↦ rw unseen (
            after_unpack-Marked _ _ f _ _ ws _ (λ e. contains_self _ _)
              (put_stream-Marked _ _ _ r id_eq (contains_self _ _)))
      ]
    where
      id_eq : s.stream_id ≡ f.header.stream_id
      id_eq = find_stream_id f.header.stream_id r.stream_states found

  stream_or_new-found :
      (id : ℕ) (r : Receiver) (o : Option StreamState)
      → find_stream id r.stream_states ≡ o
      → let (s, r') = stream_or_new stream_label id r o in find_stream id r'.stream_states ≡ some s
  unfolding stream_or_new
  stream_or_new-found id r (some s) e = e
  stream_or_new-found id r none e =
      find_stream-put_stream (new_stream stream_label id) r.stream_states

  get_or_create-found :
      (id : ℕ) (r : Receiver)
      → let (s, r') = get_or_create_stream_state stream_label id r in
        find_stream id r'.stream_states ≡ some s
  unfolding get_or_create_stream_state
  get_or_create-found id r = stream_or_new-found id r (find_stream id r.stream_states) refl

  get_or_create-some :
      (id : ℕ) (r : Receiver) {s : StreamState}
      → find_stream id r.stream_states ≡ some s
      → get_or_create_stream_state stream_label id r ≡ (s, r)
  unfolding get_or_create_stream_state
  get_or_create-some id r e = ap (stream_or_new stream_label id r) e

  -- However the handling of a batch ends, the batch is marked.
  pub handle_doc_batch-Marked :
      (r : Receiver) (f : Frame) (ws : List (Wait BatchQueueItem))
      → Leaves
          (Marked f.header.stream_id f.header.batch_seq)
          (handle_doc_batch stream_label decompressors r f ws)
  unfolding handle_doc_batch
  handle_doc_batch-Marked r f ws =
      let (s, r') = get_or_create_stream_state stream_label f.header.stream_id r in
      process_batch-Marked f ws s r' (get_or_create-found f.header.stream_id r)

  -- A batch that the receiver has met is acknowledged, and nothing else happens.
  pub handle_doc_batch-duplicate :
      (r : Receiver) (f : Frame) (ws : List (Wait BatchQueueItem))
      → Marked f.header.stream_id f.header.batch_seq r
      → handle_doc_batch stream_label decompressors r f ws
        ≡ returned (send_ack f.header.stream_id f.header.batch_seq r)
  unfolding handle_doc_batch process_batch
  handle_doc_batch-duplicate r f ws m =
      ap (process_batch stream_label decompressors f ws)
        (get_or_create-some f.header.stream_id r m.found)
      ∙ rw m.seen refl

  -- A handled batch leaves what was marked, whichever batch it is.
  process_batch-keeps :
      (id seq : ℕ) (g : Frame) (ws : List (Wait BatchQueueItem)) (s : StreamState) (r : Receiver)
      → find_stream g.header.stream_id r.stream_states ≡ some s
      → Marked id seq r
      → Leaves (Marked id seq) (process_batch stream_label decompressors g ws (s, r))
  unfolding process_batch
  process_batch-keeps id seq g ws s r found m =
      elim (Bool-cases (contains g.header.batch_seq s.duplicate_batches)) [
        | inl met ↦ rw met (same_streams id seq refl m)
        | inr unmet ↦
            rw unmet
              (after_unpack-Marked id seq g _ _ ws _ grown (put_stream-keeps id seq _ r grown m))
      ]
    where
      own : find_stream s.stream_id r.stream_states ≡ some s
      own =
          ap (λ i. find_stream i r.stream_states)
            (find_stream_id g.header.stream_id r.stream_states found)
          ∙ found

      grown : s.stream_id ≡ id → contains seq (g.header.batch_seq ∷ s.duplicate_batches) ≡ true
      grown e =
          contains_later seq g.header.batch_seq s.duplicate_batches
            (Marked-Remembers id seq s r own m e)

  stream_or_new-keeps :
      (id seq stream : ℕ) (r : Receiver) (o : Option StreamState)
      → find_stream stream r.stream_states ≡ o
      → Marked id seq r
      → Marked id seq (stream_or_new stream_label stream r o).1
  unfolding stream_or_new
  stream_or_new-keeps id seq stream r (some s) e m = m
  stream_or_new-keeps id seq stream r none e m =
      put_stream-keeps id seq (new_stream stream_label stream) r
        (λ same.
          absurd (missing (sym e ∙ (ap (λ i. find_stream i r.stream_states) same ∙ m.found))))
        m
    where
      missing : {s : StreamState} → none ≡ some s → ⊥
      missing h = cc

  pub handle_doc_batch-keeps :
      (id seq : ℕ) (r : Receiver) (g : Frame) (ws : List (Wait BatchQueueItem))
      → Marked id seq r
      → Leaves (Marked id seq) (handle_doc_batch stream_label decompressors r g ws)
  unfolding handle_doc_batch get_or_create_stream_state
  handle_doc_batch-keeps id seq r g ws m =
      let stream = g.header.stream_id in
      let o = find_stream stream r.stream_states in
      process_batch-keeps id seq g ws (stream_or_new stream_label stream r o).0
        (stream_or_new stream_label stream r o).1 (stream_or_new-found stream r o refl)
        (stream_or_new-keeps id seq stream r o refl m)
