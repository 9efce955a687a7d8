-- ===== src/Cluster/Buffer.antt =====
-- pkg/cluster/event_buffer.go: the ring of recent events and the ids seen of late. The time now is an
-- argument, and a `container/ring` is a list whose head is the place it points at. Each call holds
-- the mutex throughout.
pub mod Dedup
use go_mongo_sync.Prelude.{
  ℕ, zero, suc, ◌+◌, ◌-◌, ◌/◌, ◌%◌, Bool, true, false, Option, none, some, List, [], ◌∷◌, ◌++◌,
  replicate, ltb, ◌==◌, if◌then◌else◌,
}
use go_mongo_sync.Prelude.Bytes.{Bytes}
use go_mongo_sync.Prelude.Maps.{lookup, assign}
use go_mongo_sync.Models.{ChangeEvent}

pub record EventBuffer : Type 0 where
  pub events : List (Option ChangeEvent)
  pub seen_events : List (Bytes × ℕ)
  pub max_size : ℕ
  pub ttl : ℕ

-- `NewEventBuffer`, where 300 stands for five minutes.
unfoldable pub new_event_buffer : ℕ → ℕ → EventBuffer
new_event_buffer max_size ttl =
    let size = if max_size == 0 then 10000 else max_size in
    record {
      events = replicate size none;
      seen_events = [];
      max_size = size;
      ttl = if ttl == 0 then 300 else ttl;
    }

-- The texts that make an id: `fmt.Sprintf("%x", key)` of a document key, whose type has a `String`
-- method of its own, and `Time.Format(time.RFC3339Nano)`.
pub record Formats : Type 0 where
  pub key_text : Bytes → Bytes
  pub time_text : ℕ → Bytes

-- `ring.Value = event; ring = ring.Next()`
abbrev pub put_event : ChangeEvent → List (Option ChangeEvent) → List (Option ChangeEvent)
put_event event [] = []
put_event event (slot ∷ slots) = slots ++ (some event ∷ [])

-- Whether an event seen at a time, if at all, was seen less than the limit before now.
abbrev pub is_recent : ℕ → ℕ → Option ℕ → Bool
is_recent now ttl none = false
is_recent now ttl (some seen) = ltb (now - seen) ttl

module _ (formats : Formats) where
  unfoldable pub generate_event_id : ChangeEvent → Bytes
  generate_event_id e =
      e.database
      ++ (124 ∷ e.collection
          ++ (124 ∷ e.operation_type
              ++ (124 ∷ formats.key_text e.document_key ++ (124 ∷ formats.time_text e.timestamp))))

  -- `AddEvent`, and whether the event is new.
  unfoldable pub add_event : ChangeEvent → ℕ → EventBuffer → Bool × EventBuffer
  add_event event now eb =
      let id = generate_event_id event in
      if is_recent now eb.ttl (lookup id eb.seen_events) then (false, eb) else (
        true,
        record eb {
          seen_events = assign id now eb.seen_events;
          events = put_event event eb.events;
        },
      )

-- `GetRecentEvents` from the time `cutoff` on.
unfoldable pub get_recent_events : ℕ → List (Option ChangeEvent) → List ChangeEvent
get_recent_events cutoff [] = []
get_recent_events cutoff (none ∷ slots) = get_recent_events cutoff slots
get_recent_events cutoff (some e ∷ slots) =
    let rest = get_recent_events cutoff slots in if ltb cutoff e.timestamp then e ∷ rest else rest

unfoldable pub unexpired_ids : ℕ → ℕ → List (Bytes × ℕ) → List (Bytes × ℕ)
unexpired_ids now ttl [] = []
unexpired_ids now ttl ((id, seen) ∷ m) =
    let rest = unexpired_ids now ttl m in if ltb ttl (now - seen) then rest else (id, seen) ∷ rest

-- One round of `cleanupExpiredEvents`.
unfoldable pub cleanup_expired_events : ℕ → EventBuffer → EventBuffer
cleanup_expired_events now eb = record eb { seen_events = unexpired_ids now eb.ttl eb.seen_events }
