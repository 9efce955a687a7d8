-- ===== src/Wal/Commit/Marks.antt =====
-- pkg/wal/wal.go: what `MarkApplied` changes for a restart.
use go_mongo_sync.Prelude.{
  ℕ, ◌+◌, ◌%◌, ◌^◌, ◌<◌, ◌≡◌, refl, ap, ◌∙◌, true, false, if◌then◌else◌, none, List, [], ◌∷◌, ◌++◌,
  All, arith, append-nil,
}
use go_mongo_sync.Prelude.Bytes.{Bytes}
use go_mongo_sync.Prelude.Result.{ok}
use go_mongo_sync.Wal.Segment.{Entry}
use go_mongo_sync.Wal.Segment.RoundTrip.{Fits}
use go_mongo_sync.Wal.Log.{Flush, Outcome, Wal}
use go_mongo_sync.Wal.Log.Stores.{Stores}
use go_mongo_sync.Wal.Recovery.{Fate, AllKept, crash, pending_of, is_pending, get_pending_entries}
use go_mongo_sync.Wal.Commit.{
  commit, flush_pending_commits, marker, submit, mark_applied, worker_round, on_request, on_timer,
}
use go_mongo_sync.Wal.Commit.Survival.{with_pending, committed_survives}

Fits-marker : (applied now id : ℕ) → now < 256 ^ 8 → id < 256 ^ 8 → Fits (marker applied now id)
Fits-marker applied now id h k = record {
  entry_id_fits = k;
  timestamp_fits = h;
  database_fits = omega arith;
  collection_fits = omega arith;
  documents_fits = omega arith;
  no_crc32 = refl;
}

pending_of-marker : (applied now id : ℕ) → pending_of (marker applied now id ∷ []) ≡ []
unfolding pending_of is_pending
pending_of-marker applied now id = refl

All-append_one {ℓ κ} :
    {A : Type ℓ} (P : A → Type κ) (xs : List A) (x : A) → All P xs → P x → All P (xs ++ (x ∷ []))
All-append_one P [] x a p = (p, tt)
All-append_one P (y ∷ ys) x a p = (a.0, All-append_one P ys x a.1 p)

-- A log at rest: open, with its worker running and no request on its way.
pub record IsIdle (w : Wal) : Type 0 where
  pub is_open : w.closed ≡ false
  pub runs : w.worker_runs ≡ true
  pub queue_empty : w.commit_queue ≡ []
  pub none_pending : w.pending_commits ≡ []

module _ (crc32c : Bytes → ℕ) where
  -- The log when a call of `MarkApplied` has been received by the worker.
  abbrev pub marked : ℕ → ℕ → (ℕ → Outcome) → Flush → Wal → Wal
  marked applied now o f w = worker_round crc32c on_request o f (mark_applied applied now true w).1

  marked_lem :
      (applied now : ℕ) (o : ℕ → Outcome) (f : Flush) (w : Wal)
      → IsIdle w
      → marked applied now o f w ≡ record w {
        next_entry_id = (w.next_entry_id + 1) % 2 ^ 64;
        commit_queue = [];
        pending_commits = marker applied now ((w.next_entry_id + 1) % 2 ^ 64) ∷ [];
      }
  unfolding mark_applied submit worker_round
  marked_lem applied now o f w i =
      rw (worker_round, mark_applied, submit, i.is_open, i.runs, i.queue_empty, i.none_pending) refl

  timer_lem :
      (o : ℕ → Outcome) (f : Flush) (w : Wal)
      → w.worker_runs ≡ true
      → worker_round crc32c on_timer o f w ≡ flush_pending_commits crc32c o f w
  unfolding worker_round
  timer_lem o f w e = ap (λ b. if b then flush_pending_commits crc32c o f w else w) e

  module _ (crc32c-lt : (xs : Bytes) → crc32c xs < 256 ^ 4) where
    -- `MarkApplied` of any entry of a log at rest, received and committed by the worker without
    -- an error, changes nothing for a restart: after a crash that keeps the files, the pending entries are all those
    -- that were pending before, the marked one among them. The marker does not hold the id.
    pub marked_still_pending :
        (applied now : ℕ) (o o' : ℕ → Outcome) (f f' : Flush) (w : Wal) (es : List Entry) (k : ℕ)
        (fate : ℕ → Fate)
        → AllKept fate
        → IsIdle w
        → Stores crc32c w es
        → All Fits es
        → now < 256 ^ 8
        → (commit crc32c o' f'
            (marked applied now o f w).pending_commits
            (with_pending [] (marked applied now o f w))).0
          ≡ none
        → get_pending_entries crc32c
            (crash fate k (worker_round crc32c on_timer o' f' (marked applied now o f w)))
          ≡ ok (pending_of es)
    marked_still_pending applied now o o' f f' w es k fate keeps i s fits h good =
        let id = (w.next_entry_id + 1) % 2 ^ 64 in
        let m = marker applied now id in
        let w' = record w { next_entry_id = id; commit_queue = []; pending_commits = m ∷ [] } in
        let s' : Stores crc32c w' es = record {
          older_entries = s.older_entries;
          active_entries = s.active_entries;
          older_files = s.older_files;
          active_file = s.active_file;
          together = s.together;
          is_open = s.is_open;
          is_trusted = s.is_trusted;
        } in
        let good' : (commit crc32c o' f' (m ∷ []) (with_pending [] w')).0 ≡ none =
          rw (marked_lem applied now o f w i) at good in
        let fits' = All-append_one Fits es m fits (Fits-marker applied now id h (omega arith)) in
        rw (marked_lem applied now o f w i, timer_lem o' f' w' i.runs)
          ((committed_survives crc32c crc32c-lt o' f' m [] w' es k fate keeps refl good' s' fits').1
            ∙ ap ok (
                ap (λ r. pending_of es ++ r) (pending_of-marker applied now id)
                ∙ append-nil (pending_of es)))
