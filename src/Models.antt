-- ===== src/Models.antt =====
-- pkg/models/events.go: the change events that the program's parts exchange. A string and a `bson.Raw`
-- are bytes, a time is a number, and the fields for snapshots and invalidation are left out.
use go_mongo_sync.Prelude.{ℕ}
use go_mongo_sync.Prelude.Bytes.{Bytes}

pub record ChangeEvent : Type 0 where
  pub operation_type : Bytes
  pub database : Bytes
  pub collection : Bytes
  pub document_key : Bytes
  pub full_document : Bytes
  pub timestamp : ℕ
  pub resume_token : Bytes
  pub cluster_time : Bytes
  pub sequence_id : ℕ
  pub batch_id : Bytes
  pub event_id : Bytes
