-- ===== src/Resume/Checkpoints.antt =====
-- pkg/resume/checkpoint.go: how far a collection's changes were processed. The time now is an argument,
-- and each call holds the mutex throughout.
use go_mongo_sync.Prelude.{ℕ, ◌+◌, Option, none, some, List, [], length, ◌==◌, if◌then◌else◌}
use go_mongo_sync.Prelude.Bytes.{Bytes}
use go_mongo_sync.Prelude.Maps.{lookup, assign, remove}
use go_mongo_sync.Prelude.Text.{codes}
use go_mongo_sync.Resume.Tokens.{collection_key}

-- `LastEventID`, which no code sets, is left out.
pub record Checkpoint : Type 0 where
  pub database : Bytes
  pub collection : Bytes
  pub resume_token : Bytes
  pub last_event_time : ℕ
  pub processed_count : ℕ
  pub last_updated : ℕ
  pub status : Bytes
  pub error_message : Bytes
  pub version : ℕ

abbrev pub Checkpoints : Type 0
Checkpoints = List (Bytes × Checkpoint)

abbrev pub checkpoint_or_new : Bytes → Bytes → Option Checkpoint → Checkpoint
checkpoint_or_new database collection none = record {
  database = database;
  collection = collection;
  resume_token = [];
  last_event_time = 0;
  processed_count = 0;
  last_updated = 0;
  status = codes "active";
  error_message = [];
  version = 1;
}
checkpoint_or_new database collection (some c) = c

abbrev pub advanced : Bytes → ℕ → ℕ → Checkpoint → Checkpoint
advanced token event_time now c = record c {
  resume_token = if length token == 0 then c.resume_token else token;
  last_event_time = event_time;
  processed_count = c.processed_count + 1;
  last_updated = now;
  version = c.version + 1;
}

unfoldable pub get_checkpoint : Bytes → Bytes → Checkpoints → Option Checkpoint
get_checkpoint database collection cs = lookup (collection_key database collection) cs

unfoldable pub update_checkpoint : Bytes → Bytes → Bytes → ℕ → ℕ → Checkpoints → Checkpoints
update_checkpoint database collection token event_time now cs =
    let key = collection_key database collection in
    assign key
      (advanced token event_time now (checkpoint_or_new database collection (lookup key cs))) cs

abbrev marked : Bytes → Bytes → ℕ → Bytes → Option Checkpoint → Checkpoints → Checkpoints
marked status message now key none cs = cs
marked status message now key (some c) cs =
    assign key
      (record c {
        status = status;
        error_message = message;
        last_updated = now;
        version = c.version + 1;
      })
      cs

unfoldable pub set_checkpoint_error : Bytes → Bytes → Bytes → ℕ → Checkpoints → Checkpoints
set_checkpoint_error database collection message now cs =
    let key = collection_key database collection in
    marked (codes "error") message now key (lookup key cs) cs

unfoldable pub clear_checkpoint_error : Bytes → Bytes → ℕ → Checkpoints → Checkpoints
clear_checkpoint_error database collection now cs =
    let key = collection_key database collection in
    marked (codes "active") [] now key (lookup key cs) cs

-- `DeleteCheckpoint` in memory.
unfoldable pub delete_checkpoint : Bytes → Bytes → Checkpoints → Checkpoints
delete_checkpoint database collection cs = remove (collection_key database collection) cs
