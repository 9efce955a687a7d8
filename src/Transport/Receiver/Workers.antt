-- ===== src/Transport/Receiver/Workers.antt =====
-- pkg/transport/receiver.go: what the workers leave of the queued batches.
use go_mongo_sync.Prelude.{
  ℕ, zero, suc, ◌+◌, ◌*◌, ◌≡◌, refl, sym, subst, ap, ◌∙◌, Bool, false, Bool-cases, inl, inr, Option,
  none, some, List, [], ◌∷◌, length, arith, if◌then◌else◌, lt→ltb,
}
use go_mongo_sync.Prelude.Bytes.{Bytes, bytes_eq, bytes_eq→eq, bytes_eq_refl}
use go_mongo_sync.Transport.Queue.{Queue, deadline, take_item, dequeue, give}
use go_mongo_sync.Transport.Queue.Refine.{Represents, take_item-Represents}
use go_mongo_sync.Transport.Receiver.{
  Receiver, BatchQueueItem, lookup_checkpoint, insert_checkpoint, get_checkpoint, set_checkpoint,
  process_item, batch_worker, handle_error,
}

lookup-insert_checkpoint :
    (s t : Bytes) (n : ℕ) (cs : List (Bytes × ℕ))
    → lookup_checkpoint t (insert_checkpoint s n cs)
      ≡ (if bytes_eq s t then n else lookup_checkpoint t cs)
unfolding lookup_checkpoint insert_checkpoint
lookup-insert_checkpoint s t n [] = refl
lookup-insert_checkpoint s t n ((u, m) ∷ cs) = elim (Bool-cases (bytes_eq u s)) [
  | inl e ↦ rw (bytes_eq→eq u s e) (rw (bytes_eq_refl s) (if_same s t n m cs))
  | inr ne ↦ rw ne (elim (Bool-cases (bytes_eq u t)) [
    | inr other ↦ rw other (lookup-insert_checkpoint s t n cs)
    | inl e ↦ elim (Bool-cases (bytes_eq s t)) [
      | inr other ↦ rw (e, other)
      | inl e' ↦ absurd (apart (bytes_eq→eq u t e) (bytes_eq→eq s t e') ne)
    ]
  ])
]
  where
    apart : {a b c : Bytes} → a ≡ c → b ≡ c → bytes_eq a b ≡ false → ⊥
    apart {a} {b} {c} p q h = cc (p, q, h, bytes_eq_refl c)

    if_same :
        (s t : Bytes) (n m : ℕ) (cs : List (Bytes × ℕ))
        → (if bytes_eq s t then n else lookup_checkpoint t cs)
          ≡ (if bytes_eq s t then n else (if bytes_eq s t then m else lookup_checkpoint t cs))
    if_same s t n m cs = ground arith

module _ (handler : BatchQueueItem → Bool) where
  -- The sequence number of the last batch of the stream that the handler wrote, or `current`.
  unfoldable pub last_written : Bytes → ℕ → List BatchQueueItem → ℕ
  last_written stream current [] = current
  last_written stream current (x ∷ xs) =
      last_written stream
        (if handler x
          then (if bytes_eq x.stream_name stream then x.batch_seq else current)
          else current)
        xs

  unfoldable pub failures : List BatchQueueItem → ℕ
  failures [] = 0
  failures (x ∷ xs) = (if handler x then 0 else 1) + failures xs

  and_then : Option Receiver → (Receiver → Option Receiver) → Option Receiver
  and_then none k = none
  and_then (some r) k = k r

  -- `n` rounds of a worker that does not wait.
  unfoldable pub rounds : ℕ → Receiver → Option Receiver
  unfolding and_then
  rounds zero r = some r
  rounds (suc n) r = and_then (batch_worker handler r (deadline ∷ [])) (rounds n)

  checkpoint-process_item :
      (x : BatchQueueItem) (r : Receiver) (stream : Bytes)
      → get_checkpoint (process_item handler x r) stream ≡ (
          if handler x
          then (if bytes_eq x.stream_name stream then x.batch_seq else get_checkpoint r stream)
          else get_checkpoint r stream)
  unfolding process_item get_checkpoint set_checkpoint handle_error
  checkpoint-process_item x r stream = elim (Bool-cases (handler x)) [
    | inl e ↦ rw e (lookup-insert_checkpoint x.stream_name stream x.batch_seq r.checkpoints)
    | inr ne ↦ rw ne refl
  ]

  errors-process_item :
      (x : BatchQueueItem) (r : Receiver)
      → (process_item handler x r).stats.error_count
        ≡ r.stats.error_count + 2 * (if handler x then 0 else 1)
  unfolding process_item set_checkpoint handle_error
  errors-process_item x r = ground arith

  queue-process_item :
      (x : BatchQueueItem) (r : Receiver) → (process_item handler x r).batch_queue ≡ r.batch_queue
  unfolding process_item set_checkpoint handle_error
  queue-process_item x r = ground arith

  batch_worker-front :
      (r : Receiver) (x : BatchQueueItem) (xs : List BatchQueueItem)
      → Represents r.batch_queue (x ∷ xs)
      → batch_worker handler r (deadline ∷ [])
        ≡ some (process_item handler x (record r { batch_queue = (take_item r.batch_queue).1 }))
  unfolding batch_worker dequeue give
  batch_worker-front r x xs h =
      rw
        (
          lt→ltb 0 r.batch_queue.size (omega (arith, h.size_eq)),
          (take_item-Represents r.batch_queue x xs h).0,
        )
        refl

  pub record Drained (items : List BatchQueueItem) (r r' : Receiver) : Type 0 where
    pub emptied : Represents r'.batch_queue []
    pub checkpoint :
        (stream : Bytes)
        → get_checkpoint r' stream ≡ last_written stream (get_checkpoint r stream) items
    pub errors : r'.stats.error_count ≡ r.stats.error_count + 2 * failures items

  -- As many rounds as there are batches in the queue empty it. Afterwards the checkpoint of a
  -- stream is the sequence number of the last of its batches that the handler wrote, whether or
  -- not batches before it failed; a failed batch is gone, and is counted as two errors.
  pub rounds_drain :
      (items : List BatchQueueItem) (r : Receiver)
      → Represents r.batch_queue items
      → (r' : Receiver) × (rounds (length items) r ≡ some r') × Drained items r r'
  unfolding rounds last_written failures get_checkpoint
  rounds_drain [] r h =
      (r, refl, record { emptied = h; checkpoint = λ stream. refl; errors = omega arith })
  rounds_drain (x ∷ xs) r h =
      let q = take_item-Represents r.batch_queue x xs h in
      let r₁ = process_item handler x (record r { batch_queue = (take_item r.batch_queue).1 }) in
      let (r', run, d) = rounds_drain xs r₁ (
        subst (λ (b : Queue BatchQueueItem). Represents b xs) (sym (queue-process_item x _)) q.1) in
      (
        r',
        ap (λ o. and_then o (rounds (length xs))) (batch_worker-front r x xs h) ∙ run,
        record {
          emptied = d.emptied;
          checkpoint = λ stream.
              d.checkpoint stream
              ∙ ap (λ c. last_written stream c xs) (checkpoint-process_item x _ stream);
          errors = omega (
            arith,
            d.errors,
            errors-process_item x (record r { batch_queue = (take_item r.batch_queue).1 }),
          );
        },
      )
