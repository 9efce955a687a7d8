-- ===== src/Cluster/Coordinator/Accounts.antt =====
-- pkg/cluster/event_coordinator.go: what each step does to the counts of events.
use go_mongo_sync.Prelude.{
  ℕ, ◌+◌, ◌-◌, ◌%◌, ◌^◌, ◌≤◌, ◌<◌, ◌≡◌, refl, sym, ap, ◌∙◌, subst, false, Bool-cases, Option-cases,
  inl, inr, Option, some, List, [], ◌∷◌, ◌++◌, length, length-append, ltb, ltb→lt, leb, ◌==◌, arith,
}
use go_mongo_sync.Prelude.Steps.{Holds, Holds-bind, Holds-each}
use go_mongo_sync.Models.{ChangeEvent}
use go_mongo_sync.Cluster.Buffer.{Formats, EventBuffer, add_event}
use go_mongo_sync.Cluster.Coordinator.{
  EventCoordinator, EventCoordinatorConfig, DistributionMode, broadcast, round_robin, hash,
  other_mode, submit_event, send_output, broadcast_event, round_robin_event, hash_event,
  distribute_by, distribute_event, process_batch, flush_batch, add_to_batch, handle_input,
  receive_from, on_ticker, take_from, duplicate, key_hash, processor_index, broadcast_calls,
}

-- The events that are counted as processed, duplicate or dropped, and those that still wait.
abbrev pub accounted : EventCoordinator → ℕ
accounted ec =
    ec.stats.total_processed
    + ec.stats.total_duplicates
    + ec.stats.total_dropped
    + length ec.batch
    + length ec.input_queue

leb→lt : (a b : ℕ) → leb a b ≡ false → b < a
leb→lt a b h = ground arith

-- The account of a coordinator: the events it accounts for, and the bounds of its queues and batch.
pub record Accounts (config : EventCoordinatorConfig) (n : ℕ) (ec : EventCoordinator) : Type 0 where
  pub total : accounted ec ≡ n
  pub input_bound : length ec.input_queue ≤ config.input_queue_size
  pub output_bound : length ec.output_queue ≤ config.output_queue_size
  pub batch_bound : length ec.batch < config.batch_size

module _ (config : EventCoordinatorConfig) where
  send_output-Accounts :
      (n : ℕ) (e : ChangeEvent) (ec : EventCoordinator)
      → Accounts config n ec
      → Accounts config (n + 1) (send_output config e ec)
  unfolding send_output
  send_output-Accounts n e ec a =
      elim (Bool-cases (ltb (length ec.output_queue) config.output_queue_size)) [
        | inl h ↦ rw h (record {
          total = omega (arith, a.total);
          input_bound = a.input_bound;
          output_bound = omega (
            arith,
            length-append ec.output_queue (e ∷ []),
            ltb→lt (length ec.output_queue) config.output_queue_size h,
          );
          batch_bound = a.batch_bound;
        })
        | inr h ↦ rw h (record {
          total = omega (arith, a.total);
          input_bound = a.input_bound;
          output_bound = a.output_bound;
          batch_bound = a.batch_bound;
        })
      ]

  pub recounted :
      (n m : ℕ) (ec : EventCoordinator) → n ≡ m → Accounts config n ec → Accounts config m ec
  recounted n m ec e a = record {
    total = a.total ∙ e;
    input_bound = a.input_bound;
    output_bound = a.output_bound;
    batch_bound = a.batch_bound;
  }

  -- Calls of processors are not counted.
  called :
      (n next : ℕ) (calls : List (ℕ × ChangeEvent)) (ec : EventCoordinator)
      → Accounts config n ec
      → Accounts config n (record ec { calls = calls; next_processor = next })
  called n next calls ec a = record {
    total = a.total;
    input_bound = a.input_bound;
    output_bound = a.output_bound;
    batch_bound = a.batch_bound;
  }

  round_robin_event-Accounts :
      (n : ℕ) (e : ChangeEvent) (ec : EventCoordinator)
      → Accounts config n ec
      → Holds (Accounts config (n + 1)) (round_robin_event config e ec)
  unfolding round_robin_event
  round_robin_event-Accounts n e ec a = elim (Bool-cases (ec.processors == 0)) [
    | inl h ↦ rw h (send_output-Accounts n e ec a)
    | inr h ↦ rw h (
        Holds-each (Accounts config (n + 1)) (processor_index ec.next_processor ec.processors)
          (λ i. some (
            send_output config e (record ec {
              calls = ec.calls ++ ((i, e) ∷ []);
              next_processor = (ec.next_processor + 1) % 2 ^ 64;
            })))
          (λ i.
            send_output-Accounts n e _
              (called n ((ec.next_processor + 1) % 2 ^ 64) (ec.calls ++ ((i, e) ∷ [])) ec a)))
  ]

  hash_event-Accounts :
      (n : ℕ) (e : ChangeEvent) (ec : EventCoordinator)
      → Accounts config n ec
      → Holds (Accounts config (n + 1)) (hash_event config e ec)
  unfolding hash_event
  hash_event-Accounts n e ec a = elim (Bool-cases (ec.processors == 0)) [
    | inl h ↦ rw h (send_output-Accounts n e ec a)
    | inr h ↦ rw h (
        Holds-each (Accounts config (n + 1))
          (processor_index (key_hash 0 e.document_key) ec.processors)
          (λ i. some (send_output config e (record ec { calls = ec.calls ++ ((i, e) ∷ []) })))
          (λ i.
            send_output-Accounts n e _
              (called n ec.next_processor (ec.calls ++ ((i, e) ∷ [])) ec a)))
  ]

  distribute_by-Accounts :
      (mode : DistributionMode) (n : ℕ) (e : ChangeEvent) (ec : EventCoordinator)
      → Accounts config n ec
      → Holds (Accounts config (n + 1)) (distribute_by config mode e ec)
  unfolding distribute_by broadcast_event
  distribute_by-Accounts broadcast n e ec a =
      send_output-Accounts n e _
        (called n ec.next_processor (ec.calls ++ broadcast_calls ec.processors e) ec a)
  distribute_by-Accounts round_robin n e ec a = round_robin_event-Accounts n e ec a
  distribute_by-Accounts hash n e ec a = hash_event-Accounts n e ec a
  distribute_by-Accounts other_mode n e ec a = round_robin_event-Accounts n e ec a

  process_batch-Accounts :
      (es : List ChangeEvent) (n : ℕ) (ec : EventCoordinator)
      → Accounts config n ec
      → Holds (Accounts config (n + length es)) (process_batch config es ec)
  unfolding process_batch distribute_event
  process_batch-Accounts [] n ec a = recounted n (n + 0) ec (omega arith) a
  process_batch-Accounts (e ∷ es) n ec a =
      Holds-bind (Accounts config (n + 1)) (Accounts config (n + length (e ∷ es)))
        (distribute_event config e ec) (λ ec'. process_batch config es ec')
        (distribute_by-Accounts config.distribution_mode n e ec a)
        (λ ec' a'.
          subst (λ m. Holds (Accounts config m) (process_batch config es ec')) (omega arith)
            (process_batch-Accounts es (n + 1) ec' a'))

  -- With the batch counted apart; it may be full.
  record Collected (n : ℕ) (ec : EventCoordinator) : Type 0 where
    collected : accounted ec ≡ n
    room : 0 < config.batch_size
    input_bound' : length ec.input_queue ≤ config.input_queue_size
    output_bound' : length ec.output_queue ≤ config.output_queue_size

  flush_batch-Accounts :
      (n : ℕ) (ec : EventCoordinator)
      → Collected n ec
      → Holds (Accounts config n) (flush_batch config ec)
  unfolding flush_batch
  flush_batch-Accounts n ec c =
      subst
        (λ m. Holds (Accounts config m) (process_batch config ec.batch (record ec { batch = [] })))
        (omega (arith, c.collected))
        (process_batch-Accounts ec.batch (accounted (record ec { batch = [] }))
          (record ec { batch = [] })
          (record {
            total = refl;
            input_bound = c.input_bound';
            output_bound = c.output_bound';
            batch_bound = c.room;
          }))

  add_to_batch-Accounts :
      (n : ℕ) (e : ChangeEvent) (ec : EventCoordinator)
      → Accounts config n ec
      → Holds (Accounts config (n + 1)) (add_to_batch config e ec)
  unfolding add_to_batch
  add_to_batch-Accounts n e ec a =
      elim (Bool-cases (leb config.batch_size (length (ec.batch ++ (e ∷ []))))) [
        | inl h ↦ rw h (
            flush_batch-Accounts (n + 1) (record ec { batch = ec.batch ++ (e ∷ []) })
              (record {
                collected = omega (arith, a.total, length-append ec.batch (e ∷ []));
                room = omega (arith, a.batch_bound);
                input_bound' = a.input_bound;
                output_bound' = a.output_bound;
              }))
        | inr h ↦ rw h (record {
          total = omega (arith, a.total, length-append ec.batch (e ∷ []));
          input_bound = a.input_bound;
          output_bound = a.output_bound;
          batch_bound = leb→lt config.batch_size (length (ec.batch ++ (e ∷ []))) h;
        })
      ]

  counted_duplicate :
      (n : ℕ) (buffer : Option EventBuffer) (ec : EventCoordinator)
      → Accounts config n ec
      → Accounts config (n + 1) (record ec { event_buffer = buffer; stats = duplicate ec.stats })
  counted_duplicate n buffer ec a = record {
    total = omega (arith, a.total);
    input_bound = a.input_bound;
    output_bound = a.output_bound;
    batch_bound = a.batch_bound;
  }

  rebuffered :
      (n : ℕ) (buffer : Option EventBuffer) (ec : EventCoordinator)
      → Accounts config n ec
      → Accounts config n (record ec { event_buffer = buffer })
  rebuffered n buffer ec a = record {
    total = a.total;
    input_bound = a.input_bound;
    output_bound = a.output_bound;
    batch_bound = a.batch_bound;
  }

  handle_input-Accounts :
      (formats : Formats) (n : ℕ) (e : ChangeEvent) (now : ℕ) (ec : EventCoordinator)
      → Accounts config n ec
      → Holds (Accounts config (n + 1)) (handle_input config formats e now ec)
  unfolding handle_input
  handle_input-Accounts formats n e now ec a = elim (Option-cases ec.event_buffer) [
    | inl h ↦ rw (h, handle_input) (add_to_batch-Accounts n e ec a)
    | inr (eb, h) ↦ elim (Bool-cases (add_event formats e now eb).0) [
      | inl new ↦
          rw (h, new)
            (add_to_batch-Accounts n e _ (rebuffered n (some (add_event formats e now eb).1) ec a))
      | inr old ↦ rw (h, old) (counted_duplicate n (some (add_event formats e now eb).1) ec a)
    ]
  ]

  received_one :
      (n : ℕ) (e : ChangeEvent) (es : List ChangeEvent) (ec : EventCoordinator)
      → ec.input_queue ≡ e ∷ es
      → Accounts config (n + 1) ec
      → Accounts config n (record ec { input_queue = es })
  received_one n e es ec h a = record {
    total = omega (arith, a.total, ap length h);
    input_bound = omega (arith, a.input_bound, ap length h);
    output_bound = a.output_bound;
    batch_bound = a.batch_bound;
  }

  waiting :
      (n : ℕ) (e : ChangeEvent) (es : List ChangeEvent) (ec : EventCoordinator)
      → ec.input_queue ≡ e ∷ es
      → Accounts config n ec
      → n ≡ (n - 1) + 1
  waiting n e es ec h a = omega (arith, a.total, ap length h)

  pub receive_from-Accounts :
      (formats : Formats) (now n : ℕ) (queue : List ChangeEvent) (ec : EventCoordinator)
      → ec.input_queue ≡ queue
      → Accounts config n ec
      → Holds (Accounts config n) (receive_from config formats now ec queue)
  receive_from-Accounts formats now n [] ec h a = a
  receive_from-Accounts formats now n (e ∷ es) ec h a =
      subst (λ m. Holds (Accounts config m) (receive_from config formats now ec (e ∷ es)))
        (sym (waiting n e es ec h a))
        (handle_input-Accounts formats (n - 1) e now (record ec { input_queue = es })
          (received_one (n - 1) e es ec h (recounted n ((n - 1) + 1) ec (waiting n e es ec h a) a)))

  pub on_ticker-Accounts :
      (n : ℕ) (ec : EventCoordinator)
      → Accounts config n ec
      → Holds (Accounts config n) (on_ticker config ec)
  unfolding on_ticker
  on_ticker-Accounts n ec a = flush_batch-Accounts n ec (record {
    collected = a.total;
    room = omega (arith, a.batch_bound);
    input_bound' = a.input_bound;
    output_bound' = a.output_bound;
  })

  taken :
      (n : ℕ) (e : ChangeEvent) (es : List ChangeEvent) (ec : EventCoordinator)
      → ec.output_queue ≡ e ∷ es
      → Accounts config n ec
      → Accounts config n (record ec { output_queue = es })
  taken n e es ec h a = record {
    total = a.total;
    input_bound = a.input_bound;
    output_bound = omega (arith, a.output_bound, ap length h);
    batch_bound = a.batch_bound;
  }

  pub take_from-Accounts :
      (n : ℕ) (queue : List ChangeEvent) (ec : EventCoordinator)
      → ec.output_queue ≡ queue
      → Accounts config n ec
      → Accounts config n (take_from ec queue)
  take_from-Accounts n [] ec h a = a
  take_from-Accounts n (e ∷ es) ec h a = taken n e es ec h a

  pub submit_event-Accounts :
      (n : ℕ) (e : ChangeEvent) (ec : EventCoordinator)
      → Accounts config n ec
      → Accounts config (n + 1) (submit_event config e ec).1
  unfolding submit_event
  submit_event-Accounts n e ec a =
      elim (Bool-cases (ltb (length ec.input_queue) config.input_queue_size)) [
        | inl h ↦ rw h (record {
          total = omega (arith, a.total, length-append ec.input_queue (e ∷ []));
          input_bound = omega (
            arith,
            length-append ec.input_queue (e ∷ []),
            ltb→lt (length ec.input_queue) config.input_queue_size h,
          );
          output_bound = a.output_bound;
          batch_bound = a.batch_bound;
        })
        | inr h ↦ rw h (record {
          total = omega (arith, a.total);
          input_bound = a.input_bound;
          output_bound = a.output_bound;
          batch_bound = a.batch_bound;
        })
      ]
