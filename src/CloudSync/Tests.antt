-- ===== src/CloudSync/Tests.antt =====
-- The theorems on the synchroniser's cloud side at concrete inputs.
use go_mongo_sync.Prelude.{
  ◌++◌, ◌≡◌, refl, Bool, ◌&&◌, not, Option, none, some, [], ◌∷◌, if◌then◌else◌,
}
use go_mongo_sync.Prelude.Bytes.{Bytes, bytes_eq}
use go_mongo_sync.Prelude.Maps.{IsMap, lookup}
use go_mongo_sync.Prelude.Steps.{Holds}
use go_mongo_sync.Prelude.Text.{codes}
use go_mongo_sync.Models.{ChangeEvent}
use go_mongo_sync.CloudSync.Permits.{Permits, initialize_semaphore}
use go_mongo_sync.CloudSync.Permits.Bound.{
  acquire, release, act_all, IsBounded, initialize_semaphore-IsBounded,
}
use go_mongo_sync.CloudSync.Broadcast.{
  ClientInfo, Server, has_vm_sync_clients, change_message, broadcast_to_clients,
  handle_change_event,
}
use go_mongo_sync.CloudSync.Broadcast.Delivery.{
  messages_to, only_if, is_target, handle_change_event-unconnected, broadcast_to_clients-delivers,
}

abbrev no_permits : Permits
no_permits = record { semaphore = none; holders = 0 }

abbrev two_of_two : Permits
two_of_two = record { semaphore = some (record { capacity = 2; tokens = 2 }); holders = 2 }

initialize_semaphore-IsBounded_example :
    Holds
      (IsBounded 2)
      (act_all (acquire ∷ acquire ∷ release ∷ acquire ∷ []) (initialize_semaphore 2 no_permits))
initialize_semaphore-IsBounded_example =
    initialize_semaphore-IsBounded 2 (acquire ∷ acquire ∷ release ∷ acquire ∷ []) no_permits refl

abbrev vm : ClientInfo
vm = record { client_type = codes "vm-sync"; client_id = codes "vm-sync-1"; connected_at = 1 }

abbrev browser : ClientInfo
browser = record {
  client_type = codes "dashboard";
  client_id = codes "dashboard-1";
  connected_at = 1;
}

abbrev event : ChangeEvent
event = record {
  operation_type = codes "insert";
  database = codes "shop";
  collection = codes "orders";
  document_key = [];
  full_document = 9 ∷ [];
  timestamp = 3;
  resume_token = 1 ∷ [];
  cluster_time = [];
  sequence_id = 0;
  batch_id = [];
  event_id = [];
}

abbrev marshal : ChangeEvent → Option Bytes
marshal e = some e.full_document

abbrev writes : Bytes → Bool
writes conn = bytes_eq conn (1 ∷ [])

abbrev browsing : Server
browsing = record { clients = (3 ∷ [], browser) ∷ []; token_manager = none; sent = [] }

abbrev busy : Server
busy = record {
  clients = (1 ∷ [], vm) ∷ (2 ∷ [], vm) ∷ (3 ∷ [], browser) ∷ [];
  token_manager = none;
  sent = [];
}

handle_change_event-unconnected_example :
    handle_change_event marshal none writes event 5 browsing ≡ browsing
unfolding has_vm_sync_clients
handle_change_event-unconnected_example =
    handle_change_event-unconnected marshal none writes event 5 browsing refl

broadcast_to_clients-delivers_example :
    (messages_to (2 ∷ []) (broadcast_to_clients marshal none writes event busy).sent
      ≡ messages_to (2 ∷ []) busy.sent
        ++ only_if (is_target (lookup (2 ∷ []) busy.clients) && writes (2 ∷ [])) (9 ∷ []))
    × (lookup (2 ∷ []) (broadcast_to_clients marshal none writes event busy).clients ≡ (
        if is_target (lookup (2 ∷ []) busy.clients) && not (writes (2 ∷ []))
        then none
        else lookup (2 ∷ []) busy.clients))
unfolding IsMap lookup change_message
broadcast_to_clients-delivers_example =
    broadcast_to_clients-delivers marshal none writes event (9 ∷ []) (2 ∷ []) busy refl
      (refl, (refl, (refl, tt)))
