-- ===== src/Resume/Tokens.antt =====
-- pkg/resume/token_manager.go: the resume tokens of each client and collection. A string and a
-- `bson.Raw` are bytes; a token that is nil is empty, which the code treats alike. The collection of
-- MongoDB that keeps the states is a map by `_id`. Each call holds the mutex throughout. What the
-- database answers and the time are arguments.
pub mod Restart
pub mod Cleanup
use go_mongo_sync.Prelude.{
  ℕ, zero, suc, ◌+◌, Bool, true, false, ◌&&◌, Option, none, some, List, [], ◌∷◌, ◌++◌, length, ltb,
  ◌==◌, if◌then◌else◌,
}
use go_mongo_sync.Prelude.Bytes.{Bytes}
use go_mongo_sync.Prelude.Maps.{lookup, assign, assign_all, remove_all}
use go_mongo_sync.Prelude.Result.{Result, ok, err}

pub record CollectionTokenState : Type 0 where
  pub database : Bytes
  pub collection : Bytes
  pub resume_token : Bytes
  pub last_event_time : ℕ
  pub event_count : ℕ
  pub last_updated : ℕ
  pub is_active : Bool

-- The values of `Status`; the database may hold others.
pub data ClientStatus : Type 0 where
  connected disconnected : ClientStatus
  other_status : Bytes → ClientStatus

pub record ClientResumeState : Type 0 where
  pub collection_tokens : List (Bytes × CollectionTokenState)
  pub last_seen : ℕ
  pub status : ClientStatus
  pub created_at : ℕ
  pub updated_at : ℕ

-- `stored` is the collection of the database.
pub record TokenManager : Type 0 where
  pub client_tokens : List (Bytes × ClientResumeState)
  pub stored : List (Bytes × ClientResumeState)

pub data TokenError : Type 0 where
  not_registered : TokenError

-- `fmt.Sprintf("%s.%s", database, collection)`
unfoldable pub collection_key : Bytes → Bytes → Bytes
collection_key database collection = database ++ (46 ∷ collection)

abbrev registered : ℕ → Option ClientResumeState → ClientResumeState
registered now none = record {
  collection_tokens = [];
  last_seen = now;
  status = connected;
  created_at = now;
  updated_at = now;
}
registered now (some c) = record c { status = connected; last_seen = now; updated_at = now }

abbrev pub set_client : Bytes → ClientResumeState → TokenManager → TokenManager
set_client id c tm = record tm { client_tokens = assign id c tm.client_tokens }

unfoldable pub register_client : Bytes → ℕ → TokenManager → TokenManager
register_client id now tm = set_client id (registered now (lookup id tm.client_tokens)) tm

unfoldable pub unregister_client : Bytes → ℕ → TokenManager → TokenManager
unregister_client id now tm = elim (lookup id tm.client_tokens) [
  | none ↦ tm
  | some c ↦
      set_client id (record c { status = disconnected; last_seen = now; updated_at = now }) tm
]

abbrev pub token_state_or_new : Bytes → Bytes → Option CollectionTokenState → CollectionTokenState
token_state_or_new database collection none = record {
  database = database;
  collection = collection;
  resume_token = [];
  last_event_time = 0;
  event_count = 0;
  last_updated = 0;
  is_active = true;
}
token_state_or_new database collection (some t) = t

abbrev pub updated_token : Bytes → ℕ → ℕ → CollectionTokenState → CollectionTokenState
updated_token token event_time now t = record t {
  resume_token = if length token == 0 then t.resume_token else token;
  last_event_time = event_time;
  event_count = t.event_count + 1;
  last_updated = now;
}

abbrev pub updated_client : Bytes → Bytes → Bytes → ℕ → ℕ → ClientResumeState → ClientResumeState
updated_client database collection token event_time now c =
    let key = collection_key database collection in
    record c {
      collection_tokens =
          assign key
            (updated_token token event_time now
              (token_state_or_new database collection (lookup key c.collection_tokens)))
            c.collection_tokens;
      last_seen = now;
      updated_at = now;
    }

-- `UpdateClientToken`, and whether it ended without an error.
unfoldable pub update_client_token :
    Bytes → Bytes → Bytes → Bytes → ℕ → ℕ → TokenManager → Bool × TokenManager
update_client_token id database collection token event_time now tm =
    elim (lookup id tm.client_tokens) [
      | none ↦ (false, tm)
      | some c ↦
          (true, set_client id (updated_client database collection token event_time now c) tm)
    ]

abbrev pub token_of : Option CollectionTokenState → Bytes
token_of none = []
token_of (some t) = t.resume_token

-- `GetClientResumeToken`; no token is the empty one.
unfoldable pub get_client_resume_token :
    Bytes → Bytes → Bytes → TokenManager → Result TokenError Bytes
get_client_resume_token id database collection tm = elim (lookup id tm.client_tokens) [
  | none ↦ err not_registered
  | some c ↦ ok (token_of (lookup (collection_key database collection) c.collection_tokens))
]

-- `persistTokens`, where the bulk write succeeds: each client's document is replaced, or inserted.
unfoldable pub persist_tokens : TokenManager → TokenManager
persist_tokens tm = record tm { stored = assign_all tm.client_tokens tm.stored }

-- `NewTokenManager` on what the database keeps; each document found is
-- assigned, and an error of reading leaves the manager empty.
unfoldable pub new_token_manager : Bool → List (Bytes × ClientResumeState) → TokenManager
new_token_manager answers stored = record {
  client_tokens = if answers then assign_all stored [] else [];
  stored = stored;
}

abbrev is_disconnected : ClientStatus → Bool
is_disconnected disconnected = true
is_disconnected connected = false
is_disconnected (other_status s) = false

-- Whether `performCleanup` takes a client, at the limit of seven days ago.
unfoldable pub is_expired : ℕ → ClientResumeState → Bool
is_expired cutoff c = is_disconnected c.status && ltb c.last_seen cutoff

unfoldable pub to_delete : ℕ → List (Bytes × ClientResumeState) → List Bytes
unfolding is_expired
to_delete cutoff [] = []
to_delete cutoff ((id, c) ∷ clients) =
    if is_expired cutoff c then id ∷ to_delete cutoff clients else to_delete cutoff clients

-- `performCleanup`; where the database fails, it keeps the documents.
unfoldable pub perform_cleanup : Bool → ℕ → TokenManager → TokenManager
unfolding to_delete remove_all
perform_cleanup answers cutoff tm =
    let ids = to_delete cutoff tm.client_tokens in
    record tm {
      client_tokens = remove_all ids tm.client_tokens;
      stored = if answers then remove_all ids tm.stored else tm.stored;
    }
