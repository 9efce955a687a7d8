-- ===== src/VmSync/Pages.antt =====
-- cmd/vm-sync/main.go: the initial copy of a collection, page by page. `D` is a decoded document and
-- `C` a collection of the target database. Parameters are `unmarshal` (bson.Unmarshal), `id_of` (the
-- document's `_id`), `bulk_write` (an unordered BulkWrite of upserts by `_id`, or none on an error),
-- `drop` (Drop), `fetch` (a page from the other side, or none on an error) and the count that side
-- answers. `arrivals` gives the order in which the workers' results come in, from the number of pages.
-- One collection is copied at a time.
pub mod Upserts
pub mod Located
pub mod Copy
pub mod Source
use go_mongo_sync.Prelude.{
  ℕ, zero, suc, ◌+◌, ◌-◌, ◌*◌, ◌/◌, Bool, true, false, Option, none, some, List, [], ◌∷◌, map,
  length, take, drop, ltb, leb, ◌==◌, if◌then◌else◌,
}
use go_mongo_sync.Prelude.Bytes.{Bytes}
use go_mongo_sync.Prelude.Steps.{bind}

pub record WorkerPool : Type 0 where
  pub worker_count : ℕ
  pub max_memory_mb : ℕ
  pub current_memory : ℕ

-- `initWorkerPool` from the configured workers and batch size, where 0 stands for none given.
unfoldable pub init_worker_pool : ℕ → ℕ → WorkerPool
init_worker_pool max_workers batch_size =
    let workers = if max_workers == 0 then 4 else max_workers in
    let estimated = (batch_size * workers * 1024) / (1024 * 1024) in
    record {
      worker_count = workers;
      max_memory_mb =
          if ltb 0 batch_size
          then if ltb 128 estimated then if ltb estimated 2048 then estimated else 512 else 512
          else 512;
      current_memory = 0;
    }

unfoldable pub estimate_memory_usage : List Bytes → ℕ
estimate_memory_usage [] = 0
estimate_memory_usage (doc ∷ docs) = estimate_memory_usage docs + length doc

unfoldable pub can_allocate_memory : ℕ → WorkerPool → Bool
can_allocate_memory size wp = leb (wp.current_memory + size) (wp.max_memory_mb * 1024 * 1024)

unfoldable pub allocate_memory : ℕ → WorkerPool → WorkerPool
allocate_memory size wp = record wp { current_memory = wp.current_memory + size }

unfoldable pub release_memory : ℕ → WorkerPool → WorkerPool
release_memory size wp = record wp { current_memory = wp.current_memory - size }

-- How a copy ends; `waits` is the loop that waits for memory, where nothing else releases any.
pub data SyncResult {ℓ} (C : Type ℓ) : Type ℓ where
  synced : C → SyncResult C
  failed waits : SyncResult C

abbrev pub or_failed {ℓ κ} :
    {A : Type ℓ} {C : Type κ} → Option A → (A → SyncResult C) → SyncResult C
or_failed none f = failed
or_failed (some a) f = f a

-- `(cloudCount + pageSize - 1) / pageSize`
unfoldable pub total_pages : ℕ → ℕ → ℕ
total_pages count page_size = (count + page_size - 1) / page_size

module _ {ℓ κ} {D : Type ℓ} {C : Type κ} (unmarshal : Bytes → Option D) (id_of : D → Option Bytes)
    (bulk_write : List (Bytes × D) → C → Option C) where
  abbrev pub upsert_of : Bytes → Option (Bytes × D)
  upsert_of raw = bind (unmarshal raw) (λ doc. bind (id_of doc) (λ id. some (id, doc)))

  abbrev pub cons_some : Option (Bytes × D) → List (Bytes × D) → List (Bytes × D)
  cons_some none ops = ops
  cons_some (some op) ops = op ∷ ops

  -- The upserts of a batch; a document that cannot be decoded or has no `_id` is skipped.
  unfoldable pub upserts : List Bytes → List (Bytes × D)
  upserts [] = []
  upserts (raw ∷ docs) = cons_some (upsert_of raw) (upserts docs)

  abbrev pub write_ops : List (Bytes × D) → C → Option C
  write_ops [] c = some c
  write_ops (op ∷ ops) c = bulk_write (op ∷ ops) c

  -- The loop of `insertDocumentsBatch`, on fuel for its rounds.
  unfoldable pub insert_batches : ℕ → ℕ → List Bytes → C → Option C
  insert_batches size zero docs c = some c
  insert_batches size (suc fuel) docs c =
      if length docs == 0
      then some c
      else bind (write_ops (upserts (take size docs)) c)
          (λ c'. insert_batches size fuel (drop size docs) c')

  unfoldable pub insert_documents_batch : List Bytes → C → Option C
  insert_documents_batch docs c = insert_batches 1000 (length docs) docs c

  -- `processRemainingPagesParallel`, on the results as they come in.
  unfoldable pub process_results : WorkerPool → List (Option (List Bytes)) → C → SyncResult C
  process_results wp [] c = synced c
  process_results wp (none ∷ results) c = failed
  process_results wp (some docs ∷ results) c =
      if length docs == 0
      then process_results wp results c
      else if can_allocate_memory (estimate_memory_usage docs) wp
      then or_failed (insert_documents_batch docs c) (λ c'.
        process_results
          (release_memory (estimate_memory_usage docs)
            (allocate_memory (estimate_memory_usage docs) wp))
          results c')
      else waits

  module _ (drop_collection : C → Option C) (fetch : ℕ → ℕ → Option (List Bytes))
      (cloud_count : Option ℕ) (arrivals : ℕ → List ℕ) where
    -- An error of `Drop` is logged, and the collection is kept as it is.
    abbrev pub dropped : Option C → C → C
    dropped none c = c
    dropped (some c') c = c'

    abbrev pub remaining_pages : WorkerPool → ℕ → ℕ → C → SyncResult C
    remaining_pages wp page_size total c =
        if ltb 1 total
        then process_results wp (map (λ k. fetch k page_size) (arrivals total)) c
        else synced c

    abbrev pub first_page : WorkerPool → ℕ → C → Option (List Bytes) → SyncResult C
    first_page wp page_size c none = failed
    first_page wp page_size c (some docs) =
        if length docs == 0
        then synced c
        else or_failed cloud_count (λ count.
          or_failed (insert_documents_batch docs c)
            (λ c'. remaining_pages wp page_size (total_pages count page_size) c'))

    -- `syncCollectionData`, up to the indexes and options of `handleFinalProcessing`.
    unfoldable pub sync_collection_data : WorkerPool → ℕ → C → SyncResult C
    sync_collection_data wp page_size c =
        first_page wp page_size (dropped (drop_collection c) c) (fetch 0 page_size)
