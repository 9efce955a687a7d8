-- ===== src/Wal/Commit/Shutdown.antt =====
-- pkg/wal/wal.go: requests that are in the queue when the worker returns.
use go_mongo_sync.Prelude.{
  ℕ, ◌≡◌, refl, sym, ap, ◌∙◌, Bool, true, false, if◌then◌else◌, List, [], ◌∷◌, ◌++◌, append-nil,
}
use go_mongo_sync.Prelude.Bytes.{Bytes}
use go_mongo_sync.Wal.Segment.{Entry}
use go_mongo_sync.Wal.Log.{wal_closed, Flush, Outcome, Wal}
use go_mongo_sync.Wal.Log.Requests.{SameRequests, SameRequests-refl, SameRequests-trans}
use go_mongo_sync.Wal.Commit.{
  Called, refused, commit, flush_pending_commits, append, mark_applied, submit, Wake, on_close,
  worker_round, close, close_files,
}
use go_mongo_sync.Wal.Commit.Survival.{
  answered, with_pending, commit-SameRequests, flush_pending_commits-answers,
}

-- What callers and the worker may do, one after another.
pub data Event : Type 0 where
  appends : Bytes → Bytes → Bytes → ℕ → Bool → Event
  marks : ℕ → ℕ → Bool → Event
  wakes : Wake → (ℕ → Outcome) → Flush → Event
  closes : Event
  closes_files : Flush → Event

same_if :
    (b : Bool) (x : Called × Wal) (w : Wal) (y : Called)
    → b ≡ true
    → SameRequests w (if b then (y, w) else x).1
same_if b x w y e = rw e (SameRequests-refl w)

same_unless : (b : Bool) (x w : Wal) → b ≡ false → SameRequests w (if b then x else w)
same_unless b x w e = rw e (SameRequests-refl w)

submit-SameRequests :
    (room : Bool) (entry : ℕ → Entry) (w : Wal)
    → w.closed ≡ true
    → SameRequests w (submit room entry w).1
unfolding submit
submit-SameRequests room entry w e = same_if w.closed _ w (refused wal_closed) e

module _ (crc32c : Bytes → ℕ) where
  unfoldable pub handle : Event → Wal → Wal
  unfolding close close_files
  handle (appends d c docs now room) w = (append d c docs now room w).1
  handle (marks applied now room) w = (mark_applied applied now room w).1
  handle (wakes wake o f) w = worker_round crc32c wake o f w
  handle closes w = close w
  handle (closes_files f) w = (close_files f w).1

  unfoldable pub handle_all : List Event → Wal → Wal
  unfolding handle
  handle_all [] w = w
  handle_all (ev ∷ evs) w = handle_all evs (handle ev w)

  -- Once the log is closed and its worker has returned, no event changes a request or a result.
  handle-SameRequests :
      (ev : Event) (w : Wal)
      → w.closed ≡ true
      → w.worker_runs ≡ false
      → SameRequests w (handle ev w)
  unfolding handle
  handle-SameRequests (appends d c docs now room) w e r =
      unfold append in submit-SameRequests room _ w e
  handle-SameRequests (marks applied now room) w e r =
      unfold mark_applied in submit-SameRequests room _ w e
  handle-SameRequests (wakes wake o f) w e r =
      unfold worker_round in same_unless w.worker_runs _ w r
  handle-SameRequests closes w e r = record {
    same_answers = refl;
    same_queue = refl;
    same_pending = refl;
    same_closed = sym e;
    same_worker = refl;
  }
  handle-SameRequests (closes_files f) w e r = record {
    same_answers = refl;
    same_queue = refl;
    same_pending = refl;
    same_closed = refl;
    same_worker = refl;
  }

  handle_all-SameRequests :
      (evs : List Event) (w : Wal)
      → w.closed ≡ true
      → w.worker_runs ≡ false
      → SameRequests w (handle_all evs w)
  unfolding handle_all
  handle_all-SameRequests [] w e r = SameRequests-refl w
  handle_all-SameRequests (ev ∷ evs) w e r =
      let here = handle-SameRequests ev w e r in
      let later =
        handle_all-SameRequests evs (handle ev w) (here.same_closed ∙ e) (here.same_worker ∙ r) in
      SameRequests-trans w (handle ev w) _ here later

  -- What the worker leaves when it returns.
  record Returned (o : ℕ → Outcome) (f : Flush) (w w' : Wal) : Type 0 where
    stopped : w'.worker_runs ≡ false
    closed : w'.closed ≡ w.closed
    queue : w'.commit_queue ≡ w.commit_queue
    answers :
        w'.answers
        ≡ w.answers
          ++ answered (commit crc32c o f w.pending_commits (with_pending [] w)).0 w.pending_commits

  flush-Returned :
      (o : ℕ → Outcome) (f : Flush) (w : Wal) (p : List Entry)
      → w.pending_commits ≡ p
      → Returned o f w (record (flush_pending_commits crc32c o f w) { worker_runs = false })
  unfolding flush_pending_commits
  flush-Returned o f w [] h =
      rw h (record {
        stopped = refl;
        closed = refl;
        queue = refl;
        answers = sym (append-nil w.answers);
      })
  flush-Returned o f w (e ∷ batch) h =
      let same = commit-SameRequests crc32c o f (e ∷ batch) (with_pending [] w) in
      record {
        stopped = refl;
        closed = rw (h, flush_pending_commits) same.same_closed;
        queue = rw (h, flush_pending_commits) same.same_queue;
        answers =
            flush_pending_commits-answers crc32c o f e batch w h
            ∙ ap (λ p. w.answers ++ answered (commit crc32c o f p (with_pending [] w)).0 p) (sym h);
      }

  close_round :
      (o : ℕ → Outcome) (f : Flush) (w : Wal)
      → w.closed ≡ true
      → w.worker_runs ≡ true
      → worker_round crc32c on_close o f w
        ≡ record (flush_pending_commits crc32c o f w) { worker_runs = false }
  unfolding worker_round
  close_round o f w e r =
      ap
        (λ b.
          if b
          then (if w.closed
              then record (flush_pending_commits crc32c o f w) { worker_runs = false }
              else w)
          else w)
        r
      ∙ ap
          (λ b.
            if b then record (flush_pending_commits crc32c o f w) { worker_runs = false } else w)
          e

  -- When the worker of a closed log returns, it answers the requests that it had taken out of the
  -- queue and no other. The requests in the queue stay there: whatever callers do afterwards, none
  -- of them is ever answered, and their `Append` or `MarkApplied` waits for ever.
  pub queued_never_answered :
      (o : ℕ → Outcome) (f : Flush) (evs : List Event) (w : Wal)
      → w.closed ≡ true
      → w.worker_runs ≡ true
      → let w' = handle_all evs (worker_round crc32c on_close o f w) in
        (w'.commit_queue ≡ w.commit_queue)
        × (w'.answers
            ≡ w.answers
              ++ answered
                  (commit crc32c o f w.pending_commits (with_pending [] w)).0
                  w.pending_commits)
  queued_never_answered o f evs w e r =
      let left = flush-Returned o f w w.pending_commits refl in
      let w'' = record (flush_pending_commits crc32c o f w) { worker_runs = false } in
      let same = handle_all-SameRequests evs w'' (left.closed ∙ e) left.stopped in
      rw (close_round o f w e r) (same.same_queue ∙ left.queue, same.same_answers ∙ left.answers)
