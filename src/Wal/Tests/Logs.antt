-- ===== src/Wal/Tests/Logs.antt =====
-- Runs of the log, its recovery and the applier.
use go_mongo_sync.Prelude.{ℕ, ◌≡◌, refl, true, none, [], ◌∷◌, ◌++◌, map, flatten, arith}
use go_mongo_sync.Prelude.Result.{ok, err}
use go_mongo_sync.Wal.Segment.{unexpected_eof, serialized}
use go_mongo_sync.Wal.Log.{
  read_failed, Wal, flushed, sync, append_entry, make_room, write_request, write_requests,
}
use go_mongo_sync.Wal.Commit.{
  commit, flush_pending_commits, submit, mark_applied, worker_round, on_request, on_timer, on_close,
}
use go_mongo_sync.Wal.Commit.Survival.{answered, with_pending, committed_survives}
use go_mongo_sync.Wal.Commit.Marks.{marked}
use go_mongo_sync.Wal.Commit.Shutdown.{appends, closes_files, handle_all, queued_never_answered}
use go_mongo_sync.Wal.Recovery.{Fate, kept, crash, pending_of, get_pending_entries, recover}
use go_mongo_sync.Wal.Recovery.Restart.{Restarted, recover-Restarted}
use go_mongo_sync.Wal.Recovery.Torn.{recover-crash}
use go_mongo_sync.Wal.Applier.{process_entry, recover_pending_entries}
use go_mongo_sync.Wal.Applier.Replay.{applied_entry_replayed}
use go_mongo_sync.Wal.Tests.{
  crc, crc-lt, insert, insert-Fits, two-Fits, insert-length, idle, idle-Stores, good, busy,
  busy-Stores, idle-IsIdle, applier, closing, unconfirmed,
}

abbrev all_kept : ℕ → Fate
all_kept n = kept

first_writes_succeed : (commit crc good flushed (insert 3 ∷ []) (with_pending [] busy)).0 ≡ none
unfolding commit write_requests write_request make_room append_entry sync
first_writes_succeed = refl

committed_survives_example :
    ((flush_pending_commits crc good flushed busy).answers ≡ [] ++ answered none (insert 3 ∷ []))
    × (get_pending_entries crc (crash all_kept 5 (flush_pending_commits crc good flushed busy))
        ≡ ok (pending_of (insert 2 ∷ []) ++ pending_of (insert 3 ∷ [])))
committed_survives_example =
    committed_survives crc crc-lt good flushed (insert 3) [] busy (insert 2 ∷ []) 5 all_kept
      (λ n. refl) refl first_writes_succeed busy-Stores two-Fits

second_writes_succeed :
    (commit crc good flushed
      (marked crc 2 99 good flushed idle).pending_commits
      (with_pending [] (marked crc 2 99 good flushed idle))).0
    ≡ none
unfolding worker_round mark_applied submit commit write_requests write_request make_room
    append_entry sync
second_writes_succeed = refl

applied_entry_replayed_example :
    let w' = (process_entry true 99 true (insert 2) (applier, idle)).1 in
    let w'' =
      worker_round crc on_timer good flushed (worker_round crc on_request good flushed w') in
    recover_pending_entries crc (λ n. true) (crash all_kept 0 w'') applier
    ≡ (none, record applier { work_queue = [] ++ pending_of (insert 2 ∷ []) })
applied_entry_replayed_example =
    applied_entry_replayed crc crc-lt (insert 2) 99 good good flushed flushed applier applier idle
      (insert 2 ∷ []) 0 all_kept (λ n. refl) idle-IsIdle idle-Stores
      (insert-Fits 2 (omega arith), tt) (omega arith) second_writes_succeed refl

queued_never_answered_example :
    let w' =
      handle_all crc
        (appends [] [] [] 8 true ∷ closes_files flushed ∷ [])
        (worker_round crc on_close good flushed closing) in
    (w'.commit_queue ≡ insert 5 ∷ [])
    × (w'.answers
        ≡ []
          ++ answered
              (commit crc good flushed (insert 3 ∷ []) (with_pending [] closing)).0
              (insert 3 ∷ []))
queued_never_answered_example =
    queued_never_answered crc good flushed (appends [] [] [] 8 true ∷ closes_files flushed ∷ [])
      closing refl refl

recover-crash_example :
    (recover crc 0 true (crash all_kept 7 unconfirmed) ≡ err (read_failed unexpected_eof))
    × (get_pending_entries crc (crash all_kept 7 unconfirmed) ≡ err (read_failed unexpected_eof))
recover-crash_example =
    recover-crash crc crc-lt unconfirmed [] (insert 2 ∷ []) (insert 4) 7 0 true all_kept (λ n. refl)
      refl refl refl tt (insert-Fits 2 (omega arith), tt) (insert-Fits 4 (omega arith))
      insert-length refl

recover-Restarted_example :
    (w : Wal) × (recover crc 1 true (map (serialized crc) ((insert 2 ∷ []) ∷ (insert 3 ∷ []) ∷ []))
      ≡ ok w)
    × Restarted crc (flatten ((insert 2 ∷ []) ∷ (insert 3 ∷ []) ∷ [])) w
recover-Restarted_example =
    recover-Restarted crc crc-lt (insert 2 ∷ []) ((insert 3 ∷ []) ∷ []) 1
      ((insert-Fits 2 (omega arith), tt), ((insert-Fits 3 (omega arith), tt), tt))
      (omega arith, (omega arith, tt))
