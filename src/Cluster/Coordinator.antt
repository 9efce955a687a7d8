-- ===== src/Cluster/Coordinator.antt =====
-- pkg/cluster/event_coordinator.go: events are queued, freed of duplicates, collected into batches and
-- distributed over processors. The goroutines' steps are `submit_event` (a caller), `receive_event`,
-- `on_ticker` (`processInput`) and `take_output` (`processOutput`). `batch` is the local
-- variable of `processInput`. A call of a processor is started in a goroutine: `calls` lists the
-- processor and the event of each. A step that panics gives `none`. An `int` has 64 bits; the counters
-- of the statistics are not bounded.
pub mod Accounts
pub mod Conservation
pub mod Returns
use go_mongo_sync.Prelude.{
  ℕ, zero, suc, ◌+◌, ◌-◌, ◌*◌, ◌%◌, ◌^◌, Bool, true, false, Option, none, some, List, [], ◌∷◌, ◌++◌,
  length, ltb, leb, ◌==◌, if◌then◌else◌,
}
use go_mongo_sync.Prelude.Bytes.{Bytes}
use go_mongo_sync.Prelude.Steps.{bind}
use go_mongo_sync.Models.{ChangeEvent}
use go_mongo_sync.Cluster.Buffer.{Formats, EventBuffer, add_event}

-- The values of `DistributionMode`.
pub data DistributionMode : Type 0 where
  broadcast round_robin hash other_mode : DistributionMode

pub record EventCoordinatorConfig : Type 0 where
  pub input_queue_size : ℕ
  pub output_queue_size : ℕ
  pub batch_size : ℕ
  pub distribution_mode : DistributionMode

pub record EventCoordinatorStats : Type 0 where
  pub total_received : ℕ
  pub total_processed : ℕ
  pub total_duplicates : ℕ
  pub total_dropped : ℕ

-- `event_buffer` is none without `EnableDedup`; `processors` is how many there are.
pub record EventCoordinator : Type 0 where
  pub event_buffer : Option EventBuffer
  pub input_queue : List ChangeEvent
  pub output_queue : List ChangeEvent
  pub batch : List ChangeEvent
  pub processors : ℕ
  pub next_processor : ℕ
  pub calls : List (ℕ × ChangeEvent)
  pub stats : EventCoordinatorStats

abbrev no_events : EventCoordinatorStats
no_events = record {
  total_received = 0;
  total_processed = 0;
  total_duplicates = 0;
  total_dropped = 0;
}

-- `NewEventCoordinator`: the defaults for what is not positive, and an empty coordinator.
unfoldable pub with_defaults : EventCoordinatorConfig → EventCoordinatorConfig
with_defaults c = record {
  input_queue_size = if c.input_queue_size == 0 then 10000 else c.input_queue_size;
  output_queue_size = if c.output_queue_size == 0 then 10000 else c.output_queue_size;
  batch_size = if c.batch_size == 0 then 100 else c.batch_size;
  distribution_mode = c.distribution_mode;
}

unfoldable pub new_event_coordinator : Option EventBuffer → EventCoordinator
new_event_coordinator buffer = record {
  event_buffer = buffer;
  input_queue = [];
  output_queue = [];
  batch = [];
  processors = 0;
  next_processor = 0;
  calls = [];
  stats = no_events;
}

unfoldable pub add_processor : EventCoordinator → EventCoordinator
add_processor ec = record ec { processors = ec.processors + 1 }

abbrev pub received : EventCoordinatorStats → EventCoordinatorStats
received s = record s { total_received = s.total_received + 1 }

abbrev pub processed : EventCoordinatorStats → EventCoordinatorStats
processed s = record s { total_processed = s.total_processed + 1 }

abbrev pub duplicate : EventCoordinatorStats → EventCoordinatorStats
duplicate s = record s { total_duplicates = s.total_duplicates + 1 }

abbrev pub dropped : EventCoordinatorStats → EventCoordinatorStats
dropped s = record s { total_dropped = s.total_dropped + 1 }

-- The hash of a document key, as the 64 bits of its `int`.
unfoldable pub key_hash : ℕ → Bytes → ℕ
key_hash h [] = h
key_hash h (b ∷ bs) = key_hash ((h * 31 + b) % 2 ^ 64) bs

-- An index that is out of range panics.
abbrev pub in_range : ℕ → ℕ → Option ℕ
in_range i n = if ltb i n then some i else none

-- `processors[h % len(processors)]` for an `int` of the 64 bits `h`: a division by zero panics, and the
-- remainder has the sign of `h`, so that below zero it is no index.
unfoldable pub processor_index : ℕ → ℕ → Option ℕ
processor_index h processors =
    if processors == 0
    then none
    else if ltb h (2 ^ 63)
    then in_range (h % processors) processors
    else if (2 ^ 64 - h) % processors == 0
    then in_range 0 processors
    else none

-- The calls of a broadcast, one for each processor.
abbrev pub broadcast_calls : ℕ → ChangeEvent → List (ℕ × ChangeEvent)
broadcast_calls zero e = []
broadcast_calls (suc n) e = broadcast_calls n e ++ ((n, e) ∷ [])

module _ (config : EventCoordinatorConfig) where
  -- `SubmitEvent`, and whether the queue took the event.
  unfoldable pub submit_event : ChangeEvent → EventCoordinator → Bool × EventCoordinator
  submit_event e ec =
      if ltb (length ec.input_queue) config.input_queue_size
      then (true, record ec { input_queue = ec.input_queue ++ (e ∷ []); stats = received ec.stats })
      else (false, record ec { stats = dropped ec.stats })

  -- The select that ends each way of distribution.
  unfoldable pub send_output : ChangeEvent → EventCoordinator → EventCoordinator
  send_output e ec =
      if ltb (length ec.output_queue) config.output_queue_size
      then record ec { output_queue = ec.output_queue ++ (e ∷ []); stats = processed ec.stats }
      else record ec { stats = dropped ec.stats }

  unfoldable pub broadcast_event : ChangeEvent → EventCoordinator → EventCoordinator
  broadcast_event e ec =
      send_output e (record ec { calls = ec.calls ++ broadcast_calls ec.processors e })

  -- `next_processor` holds the 64 bits of the `int` `roundRobin`.
  unfoldable pub round_robin_event : ChangeEvent → EventCoordinator → Option EventCoordinator
  round_robin_event e ec =
      if ec.processors == 0
      then some (send_output e ec)
      else bind (processor_index ec.next_processor ec.processors) (λ i. some (
          send_output e (record ec {
            calls = ec.calls ++ ((i, e) ∷ []);
            next_processor = (ec.next_processor + 1) % 2 ^ 64;
          })))

  unfoldable pub hash_event : ChangeEvent → EventCoordinator → Option EventCoordinator
  hash_event e ec =
      if ec.processors == 0
      then some (send_output e ec)
      else bind (processor_index (key_hash 0 e.document_key) ec.processors)
          (λ i. some (send_output e (record ec { calls = ec.calls ++ ((i, e) ∷ []) })))

  -- `distributeEvent`
  unfoldable pub distribute_by :
      DistributionMode → ChangeEvent → EventCoordinator → Option EventCoordinator
  distribute_by broadcast e ec = some (broadcast_event e ec)
  distribute_by round_robin e ec = round_robin_event e ec
  distribute_by hash e ec = hash_event e ec
  distribute_by other_mode e ec = round_robin_event e ec

  unfoldable pub distribute_event : ChangeEvent → EventCoordinator → Option EventCoordinator
  distribute_event e ec = distribute_by config.distribution_mode e ec

  unfoldable pub process_batch : List ChangeEvent → EventCoordinator → Option EventCoordinator
  process_batch [] ec = some ec
  process_batch (e ∷ es) ec = bind (distribute_event e ec) (λ ec'. process_batch es ec')

  -- The batch is processed and reset; while it is processed no other code uses it.
  unfoldable pub flush_batch : EventCoordinator → Option EventCoordinator
  flush_batch ec = process_batch ec.batch (record ec { batch = [] })

  unfoldable pub add_to_batch : ChangeEvent → EventCoordinator → Option EventCoordinator
  add_to_batch e ec =
      let grown = record ec { batch = ec.batch ++ (e ∷ []) } in
      if leb config.batch_size (length grown.batch) then flush_batch grown else some grown

  -- `processInput` on an event, whose place in the queue is free already.
  unfoldable pub handle_input :
      Formats → ChangeEvent → ℕ → EventCoordinator → Option EventCoordinator
  handle_input formats e now ec = elim ec.event_buffer [
    | none ↦ add_to_batch e ec
    | some eb ↦
        let r = add_event formats e now eb in
        if r.0
        then add_to_batch e (record ec { event_buffer = some r.1 })
        else some (record ec { event_buffer = some r.1; stats = duplicate ec.stats })
  ]

  abbrev pub receive_from :
      Formats → ℕ → EventCoordinator → List ChangeEvent → Option EventCoordinator
  receive_from formats now ec [] = some ec
  receive_from formats now ec (e ∷ es) = handle_input formats e now (record ec { input_queue = es })

  -- A receive of `processInput`; it waits where the queue is empty.
  unfoldable pub receive_event : Formats → ℕ → EventCoordinator → Option EventCoordinator
  receive_event formats now ec = receive_from formats now ec ec.input_queue

  -- `processInput` on a tick; also on the closed and empty queue, where it then ends.
  unfoldable pub on_ticker : EventCoordinator → Option EventCoordinator
  on_ticker ec = flush_batch ec

-- A receive of `processOutput`, which drops what it receives and waits where the queue is empty.
abbrev pub take_from : EventCoordinator → List ChangeEvent → EventCoordinator
take_from ec [] = ec
take_from ec (e ∷ es) = record ec { output_queue = es }

unfoldable pub take_output : EventCoordinator → EventCoordinator
take_output ec = take_from ec ec.output_queue
