-- ===== src/VmSync/Tests.antt =====
-- The theorems on the copy of a collection and on change events at concrete inputs.
use go_mongo_sync.Prelude.{
  ℕ, zero, suc, ◌*◌, take, drop, ◌≡◌, ◌<◌, ◌↔◌, inl, inr, ap, sym, ◌∙◌, refl, Bool, true, false,
  Option, none, some, List, [], ◌∷◌, arith,
}
use go_mongo_sync.Prelude.Bytes.{Bytes}
use go_mongo_sync.Prelude.Maps.{
  lookup, assign, remove, lookup-assign, lookup-remove, assign_all, lookup-assign_all,
}
use go_mongo_sync.Prelude.Text.{codes}
use go_mongo_sync.Models.{ChangeEvent}
use go_mongo_sync.Resume.Tokens.{collection_key}
use go_mongo_sync.Resume.Checkpoints.{Checkpoint, Checkpoints, get_checkpoint}
use go_mongo_sync.VmSync.Events.{
  Target, Client, find_target, split, insert_event, apply_event, processed_event, process_event,
  process_events,
}
use go_mongo_sync.VmSync.Events.Errors.{process_events-failed}
use go_mongo_sync.VmSync.Events.Replica.{
  Change, changed_all, Documented, Feeds, process_events-Follows,
}
use go_mongo_sync.VmSync.Pages.{
  WorkerPool, synced, sync_collection_data, init_worker_pool, total_pages, can_allocate_memory,
  estimate_memory_usage,
}
use go_mongo_sync.VmSync.Pages.Upserts.{Upserts}
use go_mongo_sync.VmSync.Pages.Located.{page}
use go_mongo_sync.VmSync.Pages.Copy.{arrives}
use go_mongo_sync.VmSync.Pages.Source.{Carries, Has, Distinct, sync_collection_data-Has}

abbrev unmarshal : Bytes → Option Bytes
unmarshal raw = some raw

-- The `_id` is the first byte.
abbrev id_of : Bytes → Option Bytes
id_of [] = none
id_of (b ∷ doc) = some (b ∷ [])

abbrev bulk_write : List (Bytes × Bytes) → List (Bytes × Bytes) → Option (List (Bytes × Bytes))
bulk_write ops c = some (assign_all ops c)

abbrev find : Bytes → List (Bytes × Bytes) → Option Bytes
find id c = lookup id c

bulk_write-Upserts : Upserts find bulk_write
bulk_write-Upserts ops c h = (assign_all ops c, refl, λ id. lookup-assign_all id ops c h)

abbrev docs : List Bytes
docs = (1 ∷ 5 ∷ []) ∷ (2 ∷ 6 ∷ []) ∷ (3 ∷ 7 ∷ []) ∷ []

-- What a raw document carries is itself.
carried : (raw id d : Bytes) → Carries unmarshal id_of raw id d → id_of raw ≡ some id
carried raw id d (decoded, keyed) = ap id_of (same decoded) ∙ keyed
  where
    same : Path (Option Bytes) (some raw) (some d) → raw ≡ d
    same h = cc

other_id :
    (m n : ℕ) (a b id d d' : Bytes)
    → m < n
    → Carries unmarshal id_of (m ∷ a) id d
    → ¬ Carries unmarshal id_of (n ∷ b) id d'
other_id m n a b id d d' lt c c' =
    omega (arith, same (carried (m ∷ a) id d c ∙ sym (carried (n ∷ b) id d' c')), lt)
  where
    same : Path (Option Bytes) (some (m ∷ [])) (some (n ∷ [])) → m ≡ n
    same h = cc

docs-Distinct : Distinct unmarshal id_of docs
docs-Distinct = (
  λ id d d' c has. elim has [
    | inl c' ↦ other_id 1 2 (5 ∷ []) (6 ∷ []) id d d' (omega arith) c c'
    | inr has' ↦ elim has' [
      | inl c' ↦ other_id 1 3 (5 ∷ []) (7 ∷ []) id d d' (omega arith) c c'
      | inr nothing ↦ nothing.0
    ]
  ],
  (
    λ id d d' c has. elim has [
      | inl c' ↦ other_id 2 3 (6 ∷ []) (7 ∷ []) id d d' (omega arith) c c'
      | inr nothing ↦ nothing.0
    ],
    (λ id d d' c has. has.0, tt),
  ),
)

abbrev pool : WorkerPool
pool = record { worker_count = 4; max_memory_mb = 512; current_memory = 0 }

abbrev old : List (Bytes × Bytes)
old = (9 ∷ [], 9 ∷ 9 ∷ []) ∷ []

abbrev drop_collection : List (Bytes × Bytes) → Option (List (Bytes × Bytes))
drop_collection c = some []

abbrev fetch : ℕ → ℕ → Option (List Bytes)
fetch k page_size = some (page page_size docs k)

abbrev arrivals : ℕ → List ℕ
arrivals total = 1 ∷ []

default_pool : init_worker_pool 0 0 ≡ pool
unfolding init_worker_pool
default_pool = refl

empty : (id : Bytes) → find id [] ≡ none
unfolding lookup
empty id = refl

all_arrive : (k : ℕ) → 0 < k → k < total_pages 3 2 → arrives k (arrivals (total_pages 3 2)) ≡ true
unfolding total_pages
all_arrive zero h h' = absurd (omega arith)
all_arrive (suc zero) h h' = refl
all_arrive (suc (suc k)) h h' = absurd (omega arith)

fits_at : (n : ℕ) → can_allocate_memory (estimate_memory_usage (take 2 (drop n docs))) pool ≡ true
unfolding can_allocate_memory estimate_memory_usage
fits_at zero = refl
fits_at (suc zero) = refl
fits_at (suc (suc zero)) = refl
fits_at (suc (suc (suc zero))) = refl
fits_at (suc (suc (suc (suc n)))) = refl

sync_collection_data-Has_example :
    (c' : List (Bytes × Bytes)) × (sync_collection_data unmarshal id_of bulk_write drop_collection
        fetch
        (some 3)
        arrivals
        pool
        2
        old
      ≡ synced c')
    × ((id d : Bytes) → (find id c' ≡ some d) ↔ Has unmarshal id_of id d docs)
sync_collection_data-Has_example =
    sync_collection_data-Has unmarshal id_of bulk_write find bulk_write-Upserts docs docs-Distinct 2
      (omega arith) drop_collection fetch (some 3) arrivals (λ k. refl) pool old [] refl refl empty
      all_arrive (λ k. fits_at (k * 2))

-- A database of one collection, which refuses to insert an id twice.
abbrev insert_once :
    Option Bytes → Bytes → Bytes → List (Bytes × Bytes) → Bool × List (Bytes × Bytes)
insert_once none id doc db = (true, assign id doc db)
insert_once (some held) id doc db = (false, db)

abbrev driver : Target Bytes (List (Bytes × Bytes))
driver = record {
  insert_one =
      λ database collection doc db. insert_once (lookup (take 1 doc) db) (take 1 doc) doc db;
  replace_one = λ database collection key doc db. (true, assign (take 1 key) doc db);
  delete_one = λ database collection key db. (true, remove (take 1 key) db);
  handle_invalidate = λ database collection db. (true, []);
}

abbrev collections : List Bytes
collections = codes "shop.orders:copy.orders" ∷ []

abbrev inserted : ChangeEvent
inserted = record {
  operation_type = codes "insert";
  database = codes "shop";
  collection = codes "orders";
  document_key = 1 ∷ [];
  full_document = 1 ∷ 8 ∷ [];
  timestamp = 5;
  resume_token = 130 ∷ 1 ∷ [];
  cluster_time = [];
  sequence_id = 1;
  batch_id = [];
  event_id = [];
}

abbrev next_inserted : ChangeEvent
next_inserted = record inserted {
  document_key = 2 ∷ [];
  full_document = 2 ∷ 8 ∷ [];
  resume_token = 130 ∷ 2 ∷ [];
  sequence_id = 2;
}

abbrev client : Client (List (Bytes × Bytes))
client = record {
  target = (1 ∷ [], 1 ∷ 7 ∷ []) ∷ [];
  checkpoints = some [];
  has_watermarks = true;
  watermarked = [];
  acknowledges = true;
  acknowledged = [];
}

process_events-failed_example :
    let s' =
      process_events unmarshal driver collections
        ((5, inserted) ∷ (6, next_inserted) ∷ [])
        client in
    let db = (process_event unmarshal driver collections inserted 5 client).1.target in
    (s'
      ≡ process_events unmarshal driver collections
          ((6, next_inserted) ∷ [])
          (record client { target = db }))
    × ((cs' : Checkpoints) × (c : Checkpoint) × (s'.checkpoints ≡ some cs')
        × (get_checkpoint (codes "shop") (codes "orders") cs' ≡ some c)
        × (c.resume_token ≡ 130 ∷ 2 ∷ []))
unfolding process_event find_target split collection_key apply_event insert_event lookup assign
    processed_event
process_events-failed_example =
    process_events-failed unmarshal driver collections inserted next_inserted 5 6 client []
      (codes "copy", codes "orders") refl refl refl (omega arith) refl

abbrev updated_event : ChangeEvent
updated_event = record inserted {
  operation_type = codes "update";
  full_document = 1 ∷ 9 ∷ [];
  sequence_id = 3;
}

abbrev deleted_event : ChangeEvent
deleted_event = record inserted {
  operation_type = codes "delete";
  full_document = [];
  sequence_id = 4;
}

abbrev find_in : Bytes × Bytes → Bytes → List (Bytes × Bytes) → Option Bytes
find_in to id db = lookup id db

take_id : (d id : Bytes) → id_of d ≡ some id → take 1 d ≡ id
take_id [] id h = absurd (cc h)
take_id (b ∷ d) id h = cc h

driver-Documented : Documented id_of driver find_in
driver-Documented = record {
  inserts = λ to id d db keyed absent.
      (assign id d db, rw (take_id d id keyed, absent) refl, λ k. lookup-assign k id d db);
  replaces = λ to id key d old db keyed same there.
      (assign id d db, rw (take_id key id keyed) refl, λ k. lookup-assign k id d db);
  deletes = λ to id key db keyed.
      (remove id db, rw (take_id key id keyed) refl, λ k. lookup-remove k id db);
}

abbrev fed : List (ℕ × ChangeEvent)
fed = (6, next_inserted) ∷ (7, updated_event) ∷ (8, deleted_event) ∷ []

abbrev changes : List (Change Bytes)
changes =
    Change.inserted (2 ∷ []) (2 ∷ 8 ∷ [])
    ∷ Change.updated (1 ∷ []) (1 ∷ 9 ∷ [])
    ∷ Change.deleted (1 ∷ [])
    ∷ []

fed-Feeds :
    Feeds unmarshal id_of driver collections find_in
      (codes "copy", codes "orders")
      fed
      changes
      client.target
unfolding find_target split collection_key lookup assign
fed-Feeds = (
  refl,
  (refl, (omega arith, refl), refl),
  refl,
  (
    refl,
    (refl, (omega arith, refl), (1 ∷ [], omega arith, refl, refl), refl),
    (1 ∷ 7 ∷ [], refl),
    (refl, (refl, (1 ∷ [], omega arith, refl, refl)), tt, tt),
  ),
)

process_events-Follows_example :
    find_in
      (codes "copy", codes "orders")
      (2 ∷ [])
      ((process_events unmarshal driver collections fed client).target)
    ≡ lookup (2 ∷ []) (changed_all changes client.target)
process_events-Follows_example =
    process_events-Follows unmarshal id_of driver collections find_in (codes "copy", codes "orders")
      driver-Documented fed changes client.target client fed-Feeds (λ id. refl) (2 ∷ [])
