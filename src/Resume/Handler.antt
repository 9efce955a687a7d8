-- ===== src/Resume/Handler.antt =====
-- pkg/resume/buffer_free_handler.go: the change streams that record resume tokens. A run of
-- `runChangeStream` is `begin_run`, `watch_opened`, one `on_event` for each event of the stream and `on_end`;
-- another goroutine may act between these. What the database answers and the time are arguments;
-- a stream is a number, and closing one is not kept.
pub mod Tokens
pub mod Streams
use go_mongo_sync.Prelude.{
  ℕ, zero, suc, ◌+◌, Bool, true, false, ◌||◌, Option, none, some, List, [], ◌∷◌, ◌++◌, length, ltb,
  ◌==◌, if◌then◌else◌,
}
use go_mongo_sync.Prelude.Bytes.{Bytes}
use go_mongo_sync.Prelude.Maps.{lookup, assign, remove}
use go_mongo_sync.Prelude.Text.{codes}
use go_mongo_sync.Prelude.Result.{Result, ok, err}
use go_mongo_sync.Models.{ChangeEvent}
use go_mongo_sync.Resilience.Retry.{contains}
use go_mongo_sync.Resume.Tokens.{
  TokenManager, TokenError, collection_key, update_client_token, get_client_resume_token,
}

pub record ChangeStreamState : Type 0 where
  pub database : Bytes
  pub collection : Bytes
  pub change_stream : Option ℕ
  pub last_token : Bytes
  pub start_time : ℕ
  pub event_count : ℕ
  pub is_active : Bool

-- `event_channel` is what the channel holds, `capacity` its size.
pub record Handler : Type 0 where
  pub token_manager : TokenManager
  pub active_streams : List (Bytes × ChangeStreamState)
  pub event_channel : List ChangeEvent
  pub capacity : ℕ

pub data StreamError : Type 0 where
  already_watching watch_failed state_removed : StreamError
  stream_failed : Bytes → StreamError

-- `getAllTrackedClients`
abbrev pub tracked_clients : List Bytes
tracked_clients = codes "example-client-1" ∷ codes "example-client-2" ∷ []

-- `UpdateClientToken` for each client of a list; an error is logged.
unfoldable pub update_clients :
    List Bytes → Bytes → Bytes → Bytes → ℕ → ℕ → TokenManager → TokenManager
update_clients [] database collection token event_time now tm = tm
update_clients (id ∷ ids) database collection token event_time now tm =
    update_clients ids database collection token event_time now
      (update_client_token id database collection token event_time now tm).1

abbrev pub usable : Result TokenError Bytes → Option Bytes
usable (err e) = none
usable (ok token) = if length token == 0 then none else some token

abbrev pub or_rest : Option Bytes → Bytes → Bytes
or_rest none rest = rest
or_rest (some token) rest = token

-- `getLatestResumeToken` over a list of clients: the first token that is not empty.
unfoldable pub first_token : List Bytes → Bytes → Bytes → TokenManager → Bytes
first_token [] database collection tm = []
first_token (id ∷ ids) database collection tm =
    or_rest (usable (get_client_resume_token id database collection tm))
      (first_token ids database collection tm)

unfoldable pub get_latest_resume_token : Bytes → Bytes → TokenManager → Bytes
get_latest_resume_token database collection tm = first_token tracked_clients database collection tm

-- `clearResumeTokensForCollection`
unfoldable pub clear_resume_tokens : Bytes → Bytes → ℕ → TokenManager → TokenManager
clear_resume_tokens database collection now tm =
    update_clients tracked_clients database collection [] now now tm

-- The select that sends an event, or drops it where the channel is full.
unfoldable pub send_event : ChangeEvent → Handler → Handler
send_event event h = record h {
  event_channel =
      if ltb (length h.event_channel) h.capacity
      then h.event_channel ++ (event ∷ [])
      else h.event_channel;
}

-- `processChangeEventImmediately`
unfoldable pub process_change_event : ChangeEvent → ℕ → Handler → Handler
process_change_event event now h = send_event event (record h {
  token_manager =
      update_clients tracked_clients event.database event.collection event.resume_token
        event.timestamp now h.token_manager;
})

-- `StartCollectionWatch`; the goroutine it starts goes on to `begin_run`.
unfoldable pub start_collection_watch : Bytes → Bytes → Handler → Result StreamError Handler
start_collection_watch database collection h =
    elim (lookup (collection_key database collection) h.active_streams) [
      | some s ↦ err already_watching
      | none ↦ ok h
    ]

-- `StopCollectionWatch`
unfoldable pub stop_collection_watch : Bytes → Bytes → Handler → Handler
stop_collection_watch database collection h =
    let key = collection_key database collection in
    elim (lookup key h.active_streams) [
      | some s ↦ record h { active_streams = remove key h.active_streams }
      | none ↦ h
    ]

abbrev pub started_stream : Bytes → Bytes → ℕ → ChangeStreamState
started_stream database collection now = record {
  database = database;
  collection = collection;
  change_stream = none;
  last_token = [];
  start_time = now;
  event_count = 0;
  is_active = true;
}

-- `runChangeStream` up to `Watch`: the token to resume after, where empty is from now on.
unfoldable pub begin_run : Bytes → Bytes → ℕ → Handler → Bytes × Handler
begin_run database collection now h = (
  get_latest_resume_token database collection h.token_manager,
  record h {
    active_streams =
        assign (collection_key database collection) (started_stream database collection now)
          h.active_streams;
  },
)

-- What follows `Watch`, given the stream or none on an error; a caller that gets an error runs again.
unfoldable pub watch_opened : Bytes → Option ℕ → Handler → Option StreamError × Handler
watch_opened key none h =
    (some watch_failed, record h { active_streams = remove key h.active_streams })
watch_opened key (some stream) h = elim (lookup key h.active_streams) [
  | none ↦ (some state_removed, h)
  | some s ↦ (
    none,
    record h {
      active_streams = assign key (record s { change_stream = some stream }) h.active_streams;
    },
  )
]

abbrev pub with_event : Bytes → ChangeStreamState → ChangeStreamState
with_event token s = record s { last_token = token; event_count = s.event_count + 1 }

-- One round of the loop over the events, where `none` is an event that cannot be decoded.
unfoldable pub on_event : Bytes → Option ChangeEvent → ℕ → Handler → Handler
on_event key none now h = h
on_event key (some event) now h = elim (lookup key h.active_streams) [
  | none ↦ h
  | some s ↦
      process_change_event event now (record h {
        active_streams = assign key (with_event event.resume_token s) h.active_streams;
      })
]

-- `isResumeTokenError` on the text of an error.
unfoldable pub is_resume_token_error : Bytes → Bool
is_resume_token_error s =
    contains s (codes "resume token")
    || (contains s (codes "ChangeStreamHistoryLost")
        || (contains s (codes "InvalidResumeToken")
            || contains s (codes "resume point may no longer be in the oplog")))

-- What follows the loop, given the stream's error.
unfoldable pub on_end : Bytes → Bytes → Option Bytes → ℕ → Handler → Option StreamError × Handler
on_end database collection none now h = (none, h)
on_end database collection (some e) now h =
    if is_resume_token_error e
    then (
      some (stream_failed e),
      record h { token_manager = clear_resume_tokens database collection now h.token_manager },
    )
    else (some (stream_failed e), h)

-- `GetStats`: the number of streams and of their events.
unfoldable pub total_events : List (Bytes × ChangeStreamState) → ℕ
total_events [] = 0
total_events ((k, s) ∷ streams) = total_events streams + s.event_count

unfoldable pub get_stats : Handler → ℕ × ℕ
get_stats h = (length h.active_streams, total_events h.active_streams)

-- `Stop`
unfoldable pub stop : Handler → Handler
stop h = record h { active_streams = [] }
