-- ===== src/CloudSync/Broadcast.antt =====
-- cmd/cloud-sync/main.go: a change event goes to the clients that are connected. The map of the clients
-- is by connection, which a byte string names; what the write to a connection answers is a function.
pub mod Delivery
use go_mongo_sync.Prelude.{
  ℕ, suc, ◌+◌, Bool, true, false, ◌||◌, ◌&&◌, not, Option, none, some, List, [], ◌∷◌, ◌++◌,
  if◌then◌else◌,
}
use go_mongo_sync.Prelude.Bytes.{Bytes, bytes_eq}
use go_mongo_sync.Prelude.Maps.{remove_all}
use go_mongo_sync.Prelude.Steps.{bind}
use go_mongo_sync.Prelude.Text.{codes}
use go_mongo_sync.Models.{ChangeEvent}
use go_mongo_sync.Resume.Tokens.{TokenManager}
use go_mongo_sync.Resume.Handler.{update_clients}

pub record ClientInfo : Type 0 where
  pub client_type : Bytes
  pub client_id : Bytes
  pub connected_at : ℕ

-- `sent` lists the messages written, with the connection of each.
pub record Server : Type 0 where
  pub clients : List (Bytes × ClientInfo)
  pub token_manager : Option TokenManager
  pub sent : List (Bytes × Bytes)

abbrev pub is_vm_sync : ClientInfo → Bool
is_vm_sync info = bytes_eq info.client_type (codes "vm-sync")

unfoldable pub has_vm_sync_clients : List (Bytes × ClientInfo) → Bool
has_vm_sync_clients [] = false
has_vm_sync_clients ((conn, info) ∷ clients) = is_vm_sync info || has_vm_sync_clients clients

unfoldable pub get_vm_sync_client_count : List (Bytes × ClientInfo) → ℕ
get_vm_sync_client_count [] = 0
get_vm_sync_client_count ((conn, info) ∷ clients) =
    let rest = get_vm_sync_client_count clients in if is_vm_sync info then rest + 1 else rest

-- The list that `updateResumeTokensForAllClients` collects.
unfoldable pub vm_sync_ids : List (Bytes × ClientInfo) → List Bytes
vm_sync_ids [] = []
vm_sync_ids ((conn, info) ∷ clients) =
    if is_vm_sync info then info.client_id ∷ vm_sync_ids clients else vm_sync_ids clients

-- `updateResumeTokensForAllClients`
unfoldable pub update_resume_tokens :
    ChangeEvent → ℕ → List (Bytes × ClientInfo) → TokenManager → TokenManager
update_resume_tokens event now clients tm =
    update_clients (vm_sync_ids clients) event.database event.collection event.resume_token
      event.timestamp now tm

abbrev pub with_tokens : ChangeEvent → ℕ → Server → Option TokenManager → Server
with_tokens event now s none = s
with_tokens event now s (some tm) = record s {
  token_manager = some (update_resume_tokens event now s.clients tm);
}

-- The loop of `broadcastToClients`: the messages written, and the connections that failed.
unfoldable pub write_all :
    (Bytes → Bool) → Bytes → List (Bytes × ClientInfo) → List (Bytes × Bytes) × List Bytes
write_all writes message [] = ([], [])
write_all writes message ((conn, info) ∷ clients) =
    let rest = write_all writes message clients in
    if is_vm_sync info
    then if writes conn then ((conn, message) ∷ rest.0, rest.1) else (rest.0, conn ∷ rest.1)
    else rest

-- `marshal` is `bson.Marshal`, and `encrypt` the encryption where that is enabled.
module _ (marshal : ChangeEvent → Option Bytes) (encrypt : Option (Bytes → Option Bytes)) where
  unfoldable pub change_message : ChangeEvent → Option Bytes
  change_message event = elim encrypt [ none ↦ marshal event | some f ↦ bind (marshal event) f ]

  abbrev pub broadcast_message : (Bytes → Bool) → Option Bytes → Server → Server
  broadcast_message writes none s = s
  broadcast_message writes (some message) s =
      let r = write_all writes message s.clients in
      record s { clients = remove_all r.1 s.clients; sent = s.sent ++ r.0 }

  -- `broadcastToClients`
  unfoldable pub broadcast_to_clients : (Bytes → Bool) → ChangeEvent → Server → Server
  broadcast_to_clients writes event s = broadcast_message writes (change_message event) s

  -- `handleChangeEventWithBackpressure`, after its delay.
  unfoldable pub handle_change_event : (Bytes → Bool) → ChangeEvent → ℕ → Server → Server
  handle_change_event writes event now s =
      let updated = with_tokens event now s s.token_manager in
      if has_vm_sync_clients updated.clients
      then broadcast_to_clients writes event updated
      else updated
