-- ===== src/Wal/Commit.antt =====
-- pkg/wal/wal.go: appending and marking entries, the worker that commits them in groups, and
-- closing. Each call is a step between others; a call that waits on its result channel leaves its
-- entry in `commit_queue`.
pub mod Durable
pub mod Survival
pub mod Marks
pub mod Shutdown
use go_mongo_sync.Prelude.{
  ℕ, zero, suc, ◌+◌, ◌%◌, ◌^◌, Bool, true, false, Option, none, some, List, [], ◌∷◌, ◌++◌, map, leb,
  if◌then◌else◌, length,
}
use go_mongo_sync.Prelude.Bytes.{Bytes}
use go_mongo_sync.Wal.Segment.{
  Entry, record_type_data, record_type_applied, status_pending, status_applied,
}
use go_mongo_sync.Wal.Log.{
  WalError, wal_closed, queue_full, Flush, Outcome, Wal, Segment, sync, write_requests,
  close_segment, group_commit_max_entries,
}

-- What `Append` and `MarkApplied` do at once: an error, or waiting for the entry of an id.
pub data Called : Type 0 where
  refused : WalError → Called
  waiting : ℕ → Called

-- The select on `commitQueue`, which has room in time or has not.
abbrev to_commit_queue : Bool → Entry → Wal → Called × Wal
to_commit_queue true e w =
    (waiting e.entry_id, record w { commit_queue = w.commit_queue ++ (e ∷ []) })
to_commit_queue false e w = (refused queue_full, w)

-- An id is taken, whether or not the entry finds room.
unfoldable pub submit : Bool → (ℕ → Entry) → Wal → Called × Wal
submit room entry w =
    if w.closed
    then (refused wal_closed, w)
    else let id = (w.next_entry_id + 1) % 2 ^ 64 in
      to_commit_queue room (entry id) (record w { next_entry_id = id })

abbrev pub data_entry : Bytes → Bytes → Bytes → ℕ → ℕ → Entry
data_entry database collection documents now id = record {
  entry_id = id;
  timestamp = now;
  record_type = record_type_data;
  status = status_pending;
  database = database;
  collection = collection;
  documents = documents;
  crc32 = 0;
}

-- The entry of `MarkApplied`; the id of the entry that was applied is not in it.
abbrev pub marker : ℕ → ℕ → ℕ → Entry
marker applied now id = record {
  entry_id = id;
  timestamp = now;
  record_type = record_type_applied;
  status = status_applied;
  database = [];
  collection = [];
  documents = [];
  crc32 = 0;
}

-- `Append`, at the time `now`.
unfoldable pub append : Bytes → Bytes → Bytes → ℕ → Bool → Wal → Called × Wal
append database collection documents now room w =
    submit room (data_entry database collection documents now) w

unfoldable pub mark_applied : ℕ → ℕ → Bool → Wal → Called × Wal
mark_applied applied now room w = submit room (marker applied now) w

abbrev newest : ℕ → List Entry → ℕ
newest n [] = n
newest n (e ∷ es) = newest e.entry_id es

-- The statistics and the results of a group commit.
abbrev finish : List Entry → Option WalError × Wal → Wal
finish batch (error, w) = record w {
  stats = elim error [
    | none ↦ record w.stats {
      total_entries = w.stats.total_entries + length batch;
      pending_entries = w.stats.pending_entries + length batch;
      newest_entry = newest w.stats.newest_entry batch;
    }
    | some e ↦ w.stats
  ];
  answers = w.answers ++ map (λ (e : Entry). (e.entry_id, error)) batch;
}

-- The fsync behind the loop, made when it met no error.
abbrev pub then_sync : Flush → Option WalError × Wal → Option WalError × Wal
then_sync f (some error, w) = (some error, w)
then_sync f (none, w) =
    let (error, s) = sync f w.active_segment in (error, record w { active_segment = s })

-- What wakes `groupCommitWorker`: a request in the queue, the timer, or `Close`.
pub data Wake : Type 0 where
  on_request on_timer on_close : Wake

module _ (crc32c : Bytes → ℕ) where
  -- Writing a batch and the one fsync behind it.
  unfoldable pub commit : (ℕ → Outcome) → Flush → List Entry → Wal → Option WalError × Wal
  commit o f batch w = then_sync f (write_requests crc32c o 0 batch w)

  -- `flushPendingCommits`.
  unfoldable pub flush_pending_commits : (ℕ → Outcome) → Flush → Wal → Wal
  flush_pending_commits o f w = elim w.pending_commits [
    | [] ↦ w
    | e ∷ es ↦ finish (e ∷ es) (commit o f (e ∷ es) (record w { pending_commits = [] }))
  ]

  abbrev commit_full : (ℕ → Outcome) → Flush → Wal → Wal
  commit_full o f w =
      if leb group_commit_max_entries (length w.pending_commits)
      then flush_pending_commits o f w
      else w

  abbrev receive : (ℕ → Outcome) → Flush → List Entry → Wal → Wal
  receive o f [] w = w
  receive o f (e ∷ es) w =
      commit_full o f
        (record w { commit_queue = es; pending_commits = w.pending_commits ++ (e ∷ []) })

  abbrev on_wake : Wake → (ℕ → Outcome) → Flush → Wal → Wal
  on_wake on_request o f w = receive o f w.commit_queue w
  on_wake on_timer o f w = flush_pending_commits o f w
  on_wake on_close o f w =
      if w.closed then record (flush_pending_commits o f w) { worker_runs = false } else w

  -- One round of `groupCommitWorker`; `compactionDone` is closed once the log is.
  unfoldable pub worker_round : Wake → (ℕ → Outcome) → Flush → Wal → Wal
  worker_round wake o f w = if w.worker_runs then on_wake wake o f w else w

-- `Close` up to its wait for the workers.
unfoldable pub close : Wal → Wal
close w = record w { closed = true }

-- The rest of `Close`, when the worker has returned.
unfoldable pub close_files : Flush → Wal → Option WalError × Wal
close_files f w =
    let (error, s) = close_segment f w.active_segment in (error, record w { active_segment = s })
