-- ===== src/Wal/Commit/Durable.antt =====
-- pkg/wal/wal.go: what a crash leaves of entries that a group commit wrote.
use go_mongo_sync.Prelude.{
  ℕ, zero, suc, ◌^◌, ◌<◌, ◌≡◌, refl, sym, ap, ap₂, ◌∙◌, subst, Option, none, some, List, [], ◌∷◌,
  ◌++◌, map, take, flatten, All, append-nil, append_assoc,
}
use mathlib.Core.List.{map-append}
use go_mongo_sync.Prelude.Bytes.{Bytes}
use go_mongo_sync.Prelude.Result.{ok}
use go_mongo_sync.Wal.Segment.{Entry, serialized}
use go_mongo_sync.Wal.Segment.RoundTrip.{Fits}
use go_mongo_sync.Wal.Log.{
  WalError, Flush, flushed, flush_error, fsync_error, Outcome, Wal, sync, write_requests,
}
use go_mongo_sync.Wal.Log.Stores.{Stores, write_requests-Stores}
use go_mongo_sync.Wal.Recovery.{
  Fate, AllKept, crash, crash-AllKept, pending_of, get_pending_entries,
}
use go_mongo_sync.Wal.Recovery.Pending.{get_pending_entries-serialized}
use go_mongo_sync.Wal.Commit.{then_sync, commit, flush_pending_commits, finish}

All-append {ℓ κ} :
    {A : Type ℓ} (P : A → Type κ) (xs ys : List A) → All P (xs ++ ys) → All P xs × All P ys
All-append P [] ys a = (tt, a)
All-append P (x ∷ xs) ys a = let (f, g) = All-append P xs ys a.1 in ((a.0, f), g)

All-flatten {ℓ κ} :
    {A : Type ℓ} (P : A → Type κ) (xss : List (List A)) → All P (flatten xss) → All (All P) xss
All-flatten P [] a = tt
All-flatten P (xs ∷ xss) a =
    let (f, g) = All-append P xs (flatten xss) a in (f, All-flatten P xss g)

take-nil {ℓ} : {A : Type ℓ} (k : ℕ) → take {A = A} k [] ≡ []
take-nil zero = refl
take-nil (suc k) = refl

flatten_last {ℓ} :
    {A : Type ℓ} (xss : List (List A)) (xs : List A)
    → flatten (xss ++ (xs ∷ [])) ≡ flatten xss ++ xs
flatten_last [] xs = append-nil xs
flatten_last (ys ∷ xss) xs =
    ap (λ r. ys ++ r) (flatten_last xss xs) ∙ sym (append_assoc ys (flatten xss) xs)

module _ (crc32c : Bytes → ℕ) where
  -- What the log holds is in the files, all of it confirmed.
  pub record Confirmed (w : Wal) (es : List Entry) : Type 0 where
    pub stores : Stores crc32c w es
    pub all_synced : w.active_segment.unsynced ≡ []

  sync_confirms :
      (f : Flush) (w : Wal) (es : List Entry)
      → (then_sync f (none, w)).0 ≡ none
      → Stores crc32c w es
      → Confirmed (then_sync f (none, w)).1 es
  unfolding sync
  sync_confirms flushed w es h s =
      rw (s.is_open, s.is_trusted)
        (record {
          stores = record {
            older_entries = s.older_entries;
            active_entries = s.active_entries;
            older_files = s.older_files;
            active_file = append-nil _ ∙ s.active_file;
            together = s.together;
            is_open = refl;
            is_trusted = refl;
          };
          all_synced = refl;
        })
  sync_confirms flush_error w es h s = cc (rw s.is_open at h)
  sync_confirms fsync_error w es h s = cc (rw s.is_open at h)

  then_sync-Confirmed :
      (f : Flush) (r : Option WalError × Wal) (es : List Entry)
      → (r.0 ≡ none → Stores crc32c r.1 es)
      → (then_sync f r).0 ≡ none
      → Confirmed (then_sync f r).1 es
  then_sync-Confirmed f (some error, w) es s h = cc h
  then_sync-Confirmed f (none, w) es s h = sync_confirms f w es h (s refl)

  pub commit-Confirmed :
      (o : ℕ → Outcome) (f : Flush) (batch : List Entry) (w : Wal) (es : List Entry)
      → (commit crc32c o f batch w).0 ≡ none
      → Stores crc32c w es
      → Confirmed (commit crc32c o f batch w).1 (es ++ batch)
  unfolding commit
  commit-Confirmed o f batch w es h s =
      then_sync-Confirmed f (write_requests crc32c o 0 batch w) (es ++ batch)
        (λ good. write_requests-Stores crc32c o 0 batch w es good s) h

  module _ (crc32c-lt : (xs : Bytes) → crc32c xs < 256 ^ 4) where
    pub Confirmed-crash :
        (w : Wal) (es : List Entry) (k : ℕ) (fate : ℕ → Fate)
        → AllKept fate
        → Confirmed w es
        → All Fits es
        → get_pending_entries crc32c (crash fate k w) ≡ ok (pending_of es)
    Confirmed-crash w es k fate keeps c f =
        let s = c.stores in
        let synced = w.active_segment.synced in
        let ess = s.older_entries ++ (s.active_entries ∷ []) in
        let last : synced ++ take k w.active_segment.unsynced ≡ serialized crc32c s.active_entries =
          ap (λ u. synced ++ take k u) c.all_synced
          ∙ (ap (λ r. synced ++ r) (take-nil k)
              ∙ (sym (ap (λ u. synced ++ u) c.all_synced) ∙ s.active_file)) in
        let files : crash fate k w ≡ map (serialized crc32c) ess =
          crash-AllKept fate k w keeps
          ∙ (ap₂ (λ r x. r ++ (x ∷ [])) s.older_files last
              ∙ sym (map-append (serialized crc32c) s.older_entries (s.active_entries ∷ []))) in
        let all : flatten ess ≡ es = flatten_last s.older_entries s.active_entries ∙ s.together in
        let fits = All-flatten Fits ess (subst (All Fits) (sym all) f) in
        ap (get_pending_entries crc32c) files
        ∙ (get_pending_entries-serialized crc32c crc32c-lt ess fits
            ∙ ap (λ r. ok (pending_of r)) all)

    -- The log with its pending batch taken out still holds its entries.
    pub taken-Stores :
        (w : Wal) (es : List Entry)
        → Stores crc32c w es
        → Stores crc32c (record w { pending_commits = [] }) es
    taken-Stores w es s = record {
      older_entries = s.older_entries;
      active_entries = s.active_entries;
      older_files = s.older_files;
      active_file = s.active_file;
      together = s.together;
      is_open = s.is_open;
      is_trusted = s.is_trusted;
    }

    pub finish-Stores :
        (batch : List Entry) (r : Option WalError × Wal) (es : List Entry)
        → Stores crc32c r.1 es
        → Stores crc32c (finish batch r) es
    finish-Stores batch (error, w) es s = record {
      older_entries = s.older_entries;
      active_entries = s.active_entries;
      older_files = s.older_files;
      active_file = s.active_file;
      together = s.together;
      is_open = s.is_open;
      is_trusted = s.is_trusted;
    }

    finish-Confirmed :
        (batch : List Entry) (r : Option WalError × Wal) (es : List Entry)
        → Confirmed r.1 es
        → Confirmed (finish batch r) es
    finish-Confirmed batch (error, w) es c = record {
      stores = finish-Stores batch (error, w) es c.stores;
      all_synced = c.all_synced;
    }

    -- When a group commit of the pending requests meets no error, the log holds the old entries
    -- and behind them the new ones, all of them confirmed.
    pub flush_pending_commits-Confirmed :
        (o : ℕ → Outcome) (f : Flush) (e : Entry) (batch : List Entry) (w : Wal) (es : List Entry)
        → w.pending_commits ≡ e ∷ batch
        → (commit crc32c o f (e ∷ batch) (record w { pending_commits = [] })).0 ≡ none
        → Stores crc32c w es
        → Confirmed (flush_pending_commits crc32c o f w) (es ++ (e ∷ batch))
    unfolding flush_pending_commits
    flush_pending_commits-Confirmed o f e batch w es p good s =
        rw (p, flush_pending_commits)
          (finish-Confirmed (e ∷ batch) _ _ (
            commit-Confirmed o f (e ∷ batch) (record w { pending_commits = [] }) es good
              (taken-Stores w es s)))
