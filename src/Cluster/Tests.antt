-- ===== src/Cluster/Tests.antt =====
-- The theorems on the cluster's events at concrete inputs.
use go_mongo_sync.Prelude.{◌≡◌, refl, false, none, some, List, [], ◌∷◌, arith}
use go_mongo_sync.Prelude.Bytes.{Bytes}
use go_mongo_sync.Prelude.Maps.{IsMap, lookup}
use go_mongo_sync.Prelude.Text.{codes}
use go_mongo_sync.Prelude.Steps.{Holds, Returns}
use go_mongo_sync.Models.{ChangeEvent}
use go_mongo_sync.Cluster.Buffer.{
  Formats, EventBuffer, add_event, cleanup_expired_events, generate_event_id,
}
use go_mongo_sync.Cluster.Buffer.Dedup.{
  add, cleanup, run, add_event-cleanup_expired_events, duplicate_refused,
}
use go_mongo_sync.Cluster.Coordinator.{
  EventCoordinator, EventCoordinatorConfig, round_robin, key_hash, processor_index,
}
use go_mongo_sync.Cluster.Coordinator.Accounts.{Accounts}
use go_mongo_sync.Cluster.Coordinator.Conservation.{
  Step, submitting, receiving, tick, take, run_steps, run_steps-Accounts,
}

abbrev updated : ChangeEvent
updated = record {
  operation_type = codes "update";
  database = codes "shop";
  collection = codes "orders";
  document_key = 5 ∷ [];
  full_document = [];
  timestamp = 7;
  resume_token = [];
  cluster_time = [];
  sequence_id = 0;
  batch_id = [];
  event_id = [];
}

abbrev formats : Formats
formats = record { key_text = λ key. key; time_text = λ t. t ∷ [] }

abbrev buffer : EventBuffer
buffer = record { events = none ∷ none ∷ []; seen_events = []; max_size = 2; ttl = 300 }

abbrev config : EventCoordinatorConfig
config = record {
  input_queue_size = 1;
  output_queue_size = 1;
  batch_size = 2;
  distribution_mode = round_robin;
}

abbrev coordinator : EventCoordinator
coordinator = record {
  event_buffer = some buffer;
  input_queue = [];
  output_queue = [];
  batch = [];
  processors = 2;
  next_processor = 0;
  calls = [];
  stats = record {
    total_received = 0;
    total_processed = 0;
    total_duplicates = 0;
    total_dropped = 0;
  };
}

coordinator-Accounts : Accounts config 0 coordinator
coordinator-Accounts = record {
  total = omega arith;
  input_bound = omega arith;
  output_bound = omega arith;
  batch_bound = omega arith;
}

abbrev steps : List Step
steps =
    submitting updated
    ∷ submitting updated
    ∷ receiving 1
    ∷ submitting updated
    ∷ receiving 2
    ∷ tick
    ∷ take
    ∷ []

-- The key `{_id: ObjectId("6ba000000000000000000000")}`, whose hash is below zero.
abbrev object_id_key : Bytes
object_id_key =
    22 ∷ 0 ∷ 0 ∷ 0 ∷ 7 ∷ 95 ∷ 105 ∷ 100 ∷ 0 ∷ 107 ∷ 160 ∷ 0 ∷ 0 ∷ 0 ∷ 0 ∷ 0 ∷ 0 ∷ 0 ∷ 0 ∷ 0 ∷ 0 ∷ 0
    ∷ []

hash_of_object_id : processor_index (key_hash 0 object_id_key) 3 ≡ none
unfolding processor_index key_hash
hash_of_object_id = refl

duplicate_refused_example :
    let later =
      run formats (add updated 10 ∷ cleanup 100 ∷ []) (add_event formats updated 5 buffer).1 in
    add_event formats updated 200 later ≡ (false, later)
unfolding add_event IsMap generate_event_id lookup
duplicate_refused_example =
    duplicate_refused formats updated updated 5 200 (add updated 10 ∷ cleanup 100 ∷ []) buffer tt
      (omega arith) refl (omega arith, (omega arith, tt)) (omega arith) refl

add_event-cleanup_expired_events_example :
    (add_event formats updated 400 (cleanup_expired_events 300 buffer)).0
    ≡ (add_event formats updated 400 buffer).0
unfolding IsMap
add_event-cleanup_expired_events_example =
    add_event-cleanup_expired_events formats updated 300 400 buffer tt (omega arith)

run_steps-Accounts_example : Holds (Accounts config 3) (run_steps config formats steps coordinator)
run_steps-Accounts_example =
    run_steps-Accounts config formats 0 steps coordinator coordinator-Accounts
