-- ===== src/Wal/Commit/Survival.antt =====
-- pkg/wal/wal.go: which entries a restart after a crash finds to be applied.
use go_mongo_sync.Prelude.{
  ℕ, ◌^◌, ◌<◌, ◌≡◌, ap, ◌∙◌, Option, none, some, List, [], ◌∷◌, ◌++◌, map, All,
}
use go_mongo_sync.Prelude.Bytes.{Bytes}
use go_mongo_sync.Prelude.Result.{ok}
use go_mongo_sync.Wal.Segment.{Entry}
use go_mongo_sync.Wal.Segment.RoundTrip.{Fits}
use go_mongo_sync.Wal.Log.{WalError, Flush, Outcome, Wal, write_requests}
use go_mongo_sync.Wal.Log.Stores.{Stores}
use go_mongo_sync.Wal.Log.Requests.{SameRequests, write_requests-SameRequests}
use go_mongo_sync.Wal.Recovery.{Fate, AllKept, crash, pending_of, get_pending_entries}
use go_mongo_sync.Wal.Recovery.Pending.{pending_of-append}
use go_mongo_sync.Wal.Commit.{then_sync, commit, flush_pending_commits}
use go_mongo_sync.Wal.Commit.Durable.{Confirmed-crash, flush_pending_commits-Confirmed}

-- The results of a batch that all ended alike.
abbrev pub answered : Option WalError → List Entry → List (ℕ × Option WalError)
answered error batch = map (λ (e : Entry). (e.entry_id, error)) batch

-- The log when a batch waits to be committed.
abbrev pub with_pending : List Entry → Wal → Wal
with_pending batch w = record w { pending_commits = batch }

module _ (crc32c : Bytes → ℕ) where
  pub with_pending-Stores :
      (batch : List Entry) (w : Wal) (es : List Entry)
      → Stores crc32c w es
      → Stores crc32c (with_pending batch w) es
  with_pending-Stores batch w es s = record {
    older_entries = s.older_entries;
    active_entries = s.active_entries;
    older_files = s.older_files;
    active_file = s.active_file;
    together = s.together;
    is_open = s.is_open;
    is_trusted = s.is_trusted;
  }

  then_sync-SameRequests :
      (f : Flush) (w : Wal) (r : Option WalError × Wal)
      → SameRequests w r.1
      → SameRequests w (then_sync f r).1
  then_sync-SameRequests f w (some error, w') h = h
  then_sync-SameRequests f w (none, w') h = record {
    same_answers = h.same_answers;
    same_queue = h.same_queue;
    same_pending = h.same_pending;
    same_closed = h.same_closed;
    same_worker = h.same_worker;
  }

  pub commit-SameRequests :
      (o : ℕ → Outcome) (f : Flush) (batch : List Entry) (w : Wal)
      → SameRequests w (commit crc32c o f batch w).1
  unfolding commit
  commit-SameRequests o f batch w =
      then_sync-SameRequests f w (write_requests crc32c o 0 batch w)
        (write_requests-SameRequests crc32c o 0 batch w)

  -- Every request of a group commit is answered, with the one error of the batch.
  pub flush_pending_commits-answers :
      (o : ℕ → Outcome) (f : Flush) (e : Entry) (batch : List Entry) (w : Wal)
      → w.pending_commits ≡ e ∷ batch
      → (flush_pending_commits crc32c o f w).answers
        ≡ w.answers
          ++ answered
              (commit crc32c o f (e ∷ batch) (record w { pending_commits = [] })).0
              (e ∷ batch)
  unfolding flush_pending_commits
  flush_pending_commits-answers o f e batch w p =
      let taken = record w { pending_commits = [] } in
      let r = commit crc32c o f (e ∷ batch) taken in
      rw (p, flush_pending_commits)
        (ap (λ a. a ++ answered r.0 (e ∷ batch))
          (commit-SameRequests o f (e ∷ batch) taken).same_answers)

module _ (crc32c : Bytes → ℕ) (crc32c-lt : (xs : Bytes) → crc32c xs < 256 ^ 4) where
  -- A group commit whose writes and fsync meet no error answers each of its requests, in order,
  -- that it succeeded. After a crash that keeps the files of the log under their names, with any
  -- part of unconfirmed bytes left, the pending entries are those that were in the log and then those of the batch, as they were appended.
  pub committed_survives :
      (o : ℕ → Outcome) (f : Flush) (e : Entry) (batch : List Entry) (w : Wal) (es : List Entry)
      (k : ℕ) (fate : ℕ → Fate)
      → AllKept fate
      → w.pending_commits ≡ e ∷ batch
      → (commit crc32c o f (e ∷ batch) (record w { pending_commits = [] })).0 ≡ none
      → Stores crc32c w es
      → All Fits (es ++ (e ∷ batch))
      → ((flush_pending_commits crc32c o f w).answers ≡ w.answers ++ answered none (e ∷ batch))
        × (get_pending_entries crc32c (crash fate k (flush_pending_commits crc32c o f w))
            ≡ ok (pending_of es ++ pending_of (e ∷ batch)))
  committed_survives o f e batch w es k fate keeps p good s fits =
      let c = flush_pending_commits-Confirmed crc32c crc32c-lt o f e batch w es p good s in
      (
        flush_pending_commits-answers crc32c o f e batch w p
            ∙ ap (λ x. w.answers ++ answered x (e ∷ batch)) good,
        Confirmed-crash crc32c crc32c-lt (flush_pending_commits crc32c o f w) (es ++ (e ∷ batch)) k
              fate keeps c fits
            ∙ ap ok (pending_of-append es (e ∷ batch)),
      )
