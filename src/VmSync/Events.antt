-- ===== src/VmSync/Events.antt =====
-- cmd/vm-sync/main.go: a change event of the other side is applied to the target. `D` is a decoded
-- document and `DB` the target database, whose operations a record holds: each by database and
-- collection: whether it ended without an error, and the database it leaves, which an operation that
-- timed out may have changed. What the watermark manager is told is a list of events, and so is
-- what was acknowledged. The time now is an argument.
pub mod Errors
pub mod Mapping
pub mod Replica
use go_mongo_sync.Prelude.{
  ℕ, Bool, true, false, ◌||◌, ◌&&◌, Option, none, some, List, [], ◌∷◌, ◌++◌, length, ltb, ◌==◌,
  if◌then◌else◌,
}
use go_mongo_sync.Prelude.Bytes.{Bytes, bytes_eq}
use go_mongo_sync.Prelude.Steps.{bind}
use go_mongo_sync.Prelude.Text.{codes}
use go_mongo_sync.Models.{ChangeEvent}
use go_mongo_sync.Resume.Tokens.{collection_key}
use go_mongo_sync.Resume.Checkpoints.{Checkpoints, update_checkpoint}

-- `InsertOne`, `ReplaceOne` and `DeleteOne`, and `handleInvalidateEvent`, which drops the collection
-- and copies it again.
pub record Target {ℓ κ} (D : Type ℓ) (DB : Type κ) : Type (ℓ ⊔ κ) where
  pub insert_one : Bytes → Bytes → D → DB → Bool × DB
  pub replace_one : Bytes → Bytes → D → D → DB → Bool × DB
  pub delete_one : Bytes → Bytes → D → DB → Bool × DB
  pub handle_invalidate : Bytes → Bytes → DB → Bool × DB

-- `checkpoints` is none without a checkpoint manager, `acknowledges` whether a connection takes an
-- acknowledgement.
pub record Client {κ} (DB : Type κ) : Type κ where
  pub target : DB
  pub checkpoints : Option Checkpoints
  pub has_watermarks : Bool
  pub watermarked : List ChangeEvent
  pub acknowledges : Bool
  pub acknowledged : List ℕ

abbrev pub push : ℕ → List Bytes → List Bytes
push c [] = (c ∷ []) ∷ []
push c (w ∷ ws) = (c ∷ w) ∷ ws

-- `strings.Split` by one character.
unfoldable pub split : ℕ → Bytes → List Bytes
split sep [] = [] ∷ []
split sep (c ∷ s) = let rest = split sep s in if c == sep then [] ∷ rest else push c rest

abbrev pub pair_of : List Bytes → Bytes × Bytes
pair_of [] = ([], [])
pair_of (a ∷ []) = ([], [])
pair_of (a ∷ b ∷ []) = (a, b)
pair_of (a ∷ b ∷ c ∷ parts) = ([], [])

-- The target that the parts of a configured collection name.
abbrev pub target_of : Bytes → Bytes → List Bytes → Bytes × Bytes
target_of database collection [] = (database, collection)
target_of database collection (source ∷ []) = (database, collection)
target_of database collection (source ∷ target ∷ parts) = pair_of (split 46 target)

abbrev pub source_of : List Bytes → Bytes
source_of [] = []
source_of (source ∷ parts) = source

-- The loop over the configured collections; none where the collection is not among them.
unfoldable pub find_target : Bytes → Bytes → List Bytes → Option (Bytes × Bytes)
find_target database collection [] = none
find_target database collection (coll ∷ colls) =
    if bytes_eq (source_of (split 58 coll)) (collection_key database collection)
    then some (target_of database collection (split 58 coll))
    else find_target database collection colls

abbrev pub with_checkpoint : ChangeEvent → ℕ → Option Checkpoints → Option Checkpoints
with_checkpoint event now none = none
with_checkpoint event now (some cs) =
    if length event.resume_token == 0
    then some cs
    else some (
        update_checkpoint event.database event.collection event.resume_token event.timestamp now cs)

-- What follows the switch of `processChangeEvent`: the checkpoint, the watermark and the
-- acknowledgement.
unfoldable pub processed_event {κ} : {DB : Type κ} → ChangeEvent → ℕ → Client DB → Client DB
processed_event event now s = record s {
  checkpoints = with_checkpoint event now s.checkpoints;
  watermarked =
      if ltb 0 event.sequence_id && s.has_watermarks
      then s.watermarked ++ (event ∷ [])
      else s.watermarked;
  acknowledged =
      if ltb 0 event.sequence_id && s.acknowledges
      then s.acknowledged ++ (event.sequence_id ∷ [])
      else s.acknowledged;
}

-- A document that cannot be decoded is an error before the database is called.
abbrev pub with_decoded {ℓ κ} :
    {D : Type ℓ} {DB : Type κ} → DB → Option D → (D → Bool × DB) → Bool × DB
with_decoded db none f = (false, db)
with_decoded db (some doc) f = f doc

module _ {ℓ κ} {D : Type ℓ} {DB : Type κ} (unmarshal : Bytes → Option D) (driver : Target D DB)
    (collections : List Bytes) where
  unfoldable pub insert_event : Bytes × Bytes → ChangeEvent → DB → Bool × DB
  insert_event to event db =
      if length event.full_document == 0
      then (true, db)
      else with_decoded db (unmarshal event.full_document)
          (λ doc. driver.insert_one to.0 to.1 doc db)

  unfoldable pub replace_event : Bytes × Bytes → ChangeEvent → DB → Bool × DB
  replace_event to event db =
      if length event.document_key == 0 || length event.full_document == 0
      then (true, db)
      else with_decoded db (unmarshal event.document_key) (λ key.
        with_decoded db (unmarshal event.full_document)
          (λ doc. driver.replace_one to.0 to.1 key doc db))

  unfoldable pub delete_event : Bytes × Bytes → ChangeEvent → DB → Bool × DB
  delete_event to event db =
      if length event.document_key == 0
      then (true, db)
      else with_decoded db (unmarshal event.document_key)
          (λ key. driver.delete_one to.0 to.1 key db)

  -- The switch of `processChangeEvent`: whether it ended well, and the database.
  unfoldable pub apply_event : Bytes × Bytes → ChangeEvent → DB → Bool × DB
  apply_event to event db =
      if bytes_eq event.operation_type (codes "insert")
      then insert_event to event db
      else if bytes_eq event.operation_type (codes "update")
          || bytes_eq event.operation_type (codes "replace")
      then replace_event to event db
      else if bytes_eq event.operation_type (codes "delete")
      then delete_event to event db
      else if bytes_eq event.operation_type (codes "invalidate")
      then driver.handle_invalidate event.database event.collection db
      else (true, db)

  abbrev pub after_apply : ChangeEvent → ℕ → Client DB → Bool × DB → Bool × Client DB
  after_apply event now s (false, db) = (false, record s { target = db })
  after_apply event now s (true, db) = (true, processed_event event now (record s { target = db }))

  abbrev pub process_for : ChangeEvent → ℕ → Client DB → Option (Bytes × Bytes) → Bool × Client DB
  process_for event now s none = (true, s)
  process_for event now s (some to) = after_apply event now s (apply_event to event s.target)

  -- `processChangeEvent`, and whether it ended without an error.
  unfoldable pub process_event : ChangeEvent → ℕ → Client DB → Bool × Client DB
  process_event event now s =
      process_for event now s (find_target event.database event.collection collections)

  -- The loop of `connectWebSocket` over the events that it receives: an error is logged.
  unfoldable pub process_events : List (ℕ × ChangeEvent) → Client DB → Client DB
  process_events [] s = s
  process_events ((now, event) ∷ events) s = process_events events (process_event event now s).1
