-- ===== src/Resume/Tests.antt =====
-- The theorems on resume tokens at concrete inputs.
use go_mongo_sync.Prelude.{◌≡◌, refl, true, [], ◌∷◌, ◌++◌, length, ltb, if◌then◌else◌, arith}
use go_mongo_sync.Prelude.Maps.{lookup, IsMap}
use go_mongo_sync.Prelude.Text.{codes}
use go_mongo_sync.Prelude.Result.{ok}
use go_mongo_sync.Resilience.Retry.{contains, find_substring}
use go_mongo_sync.Models.{ChangeEvent}
use go_mongo_sync.Resume.Tokens.{
  TokenManager, ClientResumeState, connected, disconnected, update_client_token,
  get_client_resume_token, persist_tokens, new_token_manager,
}
use go_mongo_sync.Resume.Tokens.Restart.{IsValid, updated_token_resumes}
use go_mongo_sync.Resume.Handler.{
  Handler, get_latest_resume_token, clear_resume_tokens, process_change_event,
  is_resume_token_error,
}
use go_mongo_sync.Resume.Handler.Tokens.{
  get_latest-clear_resume_tokens, process_change_event_resumes,
}

abbrev client_1 : ClientResumeState
client_1 = record {
  collection_tokens = [];
  last_seen = 10;
  status = connected;
  created_at = 10;
  updated_at = 10;
}

abbrev gone : ClientResumeState
gone = record client_1 { status = disconnected }

abbrev manager : TokenManager
manager = record {
  client_tokens = (codes "example-client-1", client_1) ∷ (codes "reporting", gone) ∷ [];
  stored = (codes "example-client-1", client_1) ∷ [];
}

manager-IsValid : IsValid manager
unfolding IsMap lookup
manager-IsValid = record { clients_once = (refl, (refl, tt)); stored_once = (refl, tt) }

abbrev inserted : ChangeEvent
inserted = record {
  operation_type = codes "insert";
  database = codes "shop";
  collection = codes "orders";
  document_key = 1 ∷ [];
  full_document = 2 ∷ [];
  timestamp = 20;
  resume_token = 130 ∷ 7 ∷ [];
  cluster_time = [];
  sequence_id = 0;
  batch_id = [];
  event_id = [];
}

abbrev handler : Handler
handler = record {
  token_manager = manager;
  active_streams = [];
  event_channel = inserted ∷ [];
  capacity = 1;
}

history_lost : is_resume_token_error (codes "(ChangeStreamHistoryLost) resume") ≡ true
unfolding is_resume_token_error contains find_substring
history_lost = refl

updated_token_resumes_example :
    let tm =
      (update_client_token
        (codes "example-client-1")
        (codes "shop")
        (codes "orders")
        (130 ∷ 7 ∷ [])
        20
        21
        manager).1 in
    (get_client_resume_token (codes "example-client-1") (codes "shop") (codes "orders") tm
      ≡ ok (130 ∷ 7 ∷ []))
    × (get_client_resume_token
          (codes "example-client-1")
          (codes "shop")
          (codes "orders")
          (new_token_manager true (persist_tokens tm).stored)
        ≡ ok (130 ∷ 7 ∷ []))
unfolding lookup
updated_token_resumes_example =
    updated_token_resumes manager (codes "example-client-1") (codes "shop") (codes "orders")
      (130 ∷ 7 ∷ []) 20 21 client_1 manager-IsValid refl (omega arith)

get_latest-clear_resume_tokens_example :
    get_latest_resume_token (codes "shop") (codes "orders") (
      clear_resume_tokens
        (codes "shop")
        (codes "orders")
        30
        (process_change_event inserted 21 handler).token_manager)
    ≡ get_latest_resume_token
        (codes "shop")
        (codes "orders")
        (process_change_event inserted 21 handler).token_manager
get_latest-clear_resume_tokens_example =
    get_latest-clear_resume_tokens (codes "shop") (codes "orders") (codes "shop") (codes "orders")
      30 (process_change_event inserted 21 handler).token_manager

process_change_event_resumes_example :
    (get_latest_resume_token
        (codes "shop")
        (codes "orders")
        (process_change_event inserted 21 handler).token_manager
      ≡ 130 ∷ 7 ∷ [])
    × ((process_change_event inserted 21 handler).event_channel ≡ (
        if ltb (length handler.event_channel) 1
        then handler.event_channel ++ (inserted ∷ [])
        else handler.event_channel))
unfolding lookup
process_change_event_resumes_example =
    process_change_event_resumes inserted 21 handler client_1 refl (omega arith)
