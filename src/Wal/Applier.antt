-- ===== src/Wal/Applier.antt =====
-- pkg/wal/applier.go: the applier, which feeds entries of the log to workers that write them to
-- the database. Whether the work queue has room in time and whether the callback succeeds are
-- arguments; the workers run one entry after another. Parsing documents for the log output is left
-- out.
pub mod Replay
use go_mongo_sync.Prelude.{
  ℕ, suc, ◌+◌, ◌%◌, ◌^◌, Bool, true, false, Option, none, some, List, [], ◌∷◌, ◌++◌, ◌-◌, ◌==◌,
  if◌then◌else◌,
}
use go_mongo_sync.Prelude.Bytes.{Bytes}
use go_mongo_sync.Prelude.Result.{Result, ok, err}
use go_mongo_sync.Wal.Segment.{Entry}
use go_mongo_sync.Wal.Log.{WalError, Wal}
use go_mongo_sync.Wal.Commit.{mark_applied}
use go_mongo_sync.Wal.Recovery.{get_pending_entries}

pub data ApplierError : Type 0 where
  applier_closed work_queue_full : ApplierError
  no_pending : WalError → ApplierError
  submit_failed : ℕ → ApplierError → ApplierError

pub record Applier : Type 0 where
  pub work_queue : List Entry
  pub applied_count : ℕ
  pub error_count : ℕ
  -- the workers that have not returned
  pub workers : ℕ
  pub closed : Bool

abbrev apply_worker_count : ℕ
apply_worker_count = 4

unfoldable pub new_applier : Applier
new_applier = record {
  work_queue = [];
  applied_count = 0;
  error_count = 0;
  workers = apply_worker_count;
  closed = false;
}

abbrev put_work : Bool → Entry → Applier → Option ApplierError × Applier
put_work true e a = (none, record a { work_queue = a.work_queue ++ (e ∷ []) })
put_work false e a = (some work_queue_full, a)

-- `Submit`.
unfoldable pub submit_work : Bool → Entry → Applier → Option ApplierError × Applier
submit_work room e a = if a.closed then (some applier_closed, a) else put_work room e a

-- The loop of `RecoverPendingEntries`; the room is by the number of the entry.
unfoldable pub submit_all : (ℕ → Bool) → ℕ → List Entry → Applier → Option ApplierError × Applier
submit_all room i [] a = (none, a)
submit_all room i (e ∷ es) a =
    let (error, a') = submit_work (room i) e a in
    let rest = submit_all room (i + 1) es a' in
    elim error [ some x ↦ (some (submit_failed e.entry_id x), a') | none ↦ rest ]

-- `processEntry`, where the callback ends with `success`.
unfoldable pub process_entry : Bool → ℕ → Bool → Entry → Applier × Wal → Applier × Wal
process_entry false now room e (a, w) = (record a { error_count = (a.error_count + 1) % 2 ^ 64 }, w)
process_entry true now room e (a, w) = (
  record a { applied_count = (a.applied_count + 1) % 2 ^ 64 },
  (mark_applied e.entry_id now room w).1,
)

abbrev work_on : Bool → ℕ → Bool → List Entry → Applier × Wal → Applier × Wal
work_on success now room [] s = s
work_on success now room (e ∷ es) (a, w) =
    process_entry success now room e (record a { work_queue = es }, w)

-- A round of a worker on the next entry of the queue. A closed applier's worker may still choose one.
unfoldable pub work : Bool → ℕ → Bool → Applier × Wal → Applier × Wal
work success now room (a, w) =
    if a.workers == 0 then (a, w) else work_on success now room a.work_queue (a, w)

-- `Close` up to its wait for the workers.
unfoldable pub close_applier : Applier → Applier
close_applier a = record a { closed = true }

-- A worker returns once the applier is closed.
unfoldable pub stop_worker : Applier → Applier
stop_worker a = if a.closed then record a { workers = a.workers - 1 } else a

module _ (crc32c : Bytes → ℕ) where
  abbrev submit_found :
      (ℕ → Bool) → Result WalError (List Entry) → Applier → Option ApplierError × Applier
  submit_found room (ok es) a = submit_all room 0 es a
  submit_found room (err e) a = (some (no_pending e), a)

  -- `RecoverPendingEntries` on the files of the log.
  unfoldable pub recover_pending_entries :
      (ℕ → Bool) → List Bytes → Applier → Option ApplierError × Applier
  recover_pending_entries room files a = submit_found room (get_pending_entries crc32c files) a
