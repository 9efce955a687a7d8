-- ===== src/Wal/Applier/Replay.antt =====
-- pkg/wal/applier.go: what is applied again after a restart.
use go_mongo_sync.Prelude.{
  ℕ, ◌+◌, ◌^◌, ◌<◌, ◌≡◌, sym, ap, ◌∙◌, true, false, if◌then◌else◌, Option, none, some, List, [],
  ◌∷◌, ◌++◌, All, append-nil, append_assoc,
}
use go_mongo_sync.Prelude.Bytes.{Bytes}
use go_mongo_sync.Wal.Segment.{Entry}
use go_mongo_sync.Wal.Segment.RoundTrip.{Fits}
use go_mongo_sync.Wal.Log.{Flush, Outcome, Wal}
use go_mongo_sync.Wal.Log.Stores.{Stores}
use go_mongo_sync.Wal.Recovery.{Fate, AllKept, crash, pending_of}
use go_mongo_sync.Wal.Commit.{commit, worker_round, on_request, on_timer}
use go_mongo_sync.Wal.Commit.Survival.{with_pending}
use go_mongo_sync.Wal.Commit.Marks.{IsIdle, marked, marked_still_pending}
use go_mongo_sync.Wal.Applier.{
  Applier, ApplierError, applier_closed, submit_work, submit_all, process_entry, submit_found,
  recover_pending_entries,
}

submit_work-room :
    (e : Entry) (a : Applier)
    → a.closed ≡ false
    → submit_work true e a ≡ (none, record a { work_queue = a.work_queue ++ (e ∷ []) })
unfolding submit_work
submit_work-room e a h =
    ap {B = Option ApplierError × Applier}
      (λ b.
        if b
        then (some applier_closed, a)
        else (none, record a { work_queue = a.work_queue ++ (e ∷ []) }))
      h

-- With room in the queue, all entries come to stand in it, in order.
submit_all-room :
    (i : ℕ) (es : List Entry) (a : Applier)
    → a.closed ≡ false
    → submit_all (λ n. true) i es a ≡ (none, record a { work_queue = a.work_queue ++ es })
unfolding submit_all
submit_all-room i [] a h =
    ap {B = Option ApplierError × Applier} (λ q. (none, record a { work_queue = q }))
      (sym (append-nil a.work_queue))
submit_all-room i (e ∷ es) a h =
    rw (submit_all, submit_work-room e a h, submit_work-room e a h)
      (submit_all-room (i + 1) es (record a { work_queue = a.work_queue ++ (e ∷ []) }) h
        ∙ ap {B = Option ApplierError × Applier} (λ q. (none, record a { work_queue = q }))
            (append_assoc a.work_queue (e ∷ []) es))

module _ (crc32c : Bytes → ℕ) (crc32c-lt : (xs : Bytes) → crc32c xs < 256 ^ 4) where
  -- A worker applies an entry with success and marks it, and the mark is received and committed
  -- without an error, on a log that was at rest. After a crash that keeps the files of the log,
  -- `RecoverPendingEntries` with room in the queue submits every entry that was pending before, in order: also the one that
  -- was applied and marked.
  pub applied_entry_replayed :
      (e : Entry) (now : ℕ) (o o' : ℕ → Outcome) (f f' : Flush) (a fresh : Applier) (w : Wal)
      (es : List Entry) (k : ℕ) (fate : ℕ → Fate)
      → AllKept fate
      → IsIdle w
      → Stores crc32c w es
      → All Fits es
      → now < 256 ^ 8
      → (commit crc32c o' f'
          (marked crc32c e.entry_id now o f w).pending_commits
          (with_pending [] (marked crc32c e.entry_id now o f w))).0
        ≡ none
      → fresh.closed ≡ false
      → let w' = (process_entry true now true e (a, w)).1 in
        let w'' = worker_round crc32c on_timer o' f' (worker_round crc32c on_request o f w') in
        recover_pending_entries crc32c (λ n. true) (crash fate k w'') fresh
        ≡ (none, record fresh { work_queue = fresh.work_queue ++ pending_of es })
  unfolding process_entry recover_pending_entries
  applied_entry_replayed e now o o' f f' a fresh w es k fate keeps i s fits h good open' =
      let found =
        marked_still_pending crc32c crc32c-lt e.entry_id now o o' f f' w es k fate keeps i s fits h
          good in
      ap (λ r. submit_found crc32c (λ n. true) r fresh) found
      ∙ submit_all-room 0 (pending_of es) fresh open'
