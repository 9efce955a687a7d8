-- ===== src/Wal/Recovery.antt =====
-- pkg/wal/wal.go: `recover` of `New` and `GetPendingEntries`. The directory is the list of its
-- segment files in the order of their names, and `last_num` the number in the last name. Whether
-- the file of the active segment can be opened is an argument.
pub mod Reading
pub mod Pending
pub mod Torn
pub mod Restart
use go_mongo_sync.Prelude.{
  ◌≡◌, refl, ap, ℕ, zero, suc, ◌+◌, ◌%◌, ◌^◌, Bool, true, false, Option, none, some, List, [], ◌∷◌,
  ◌++◌, ◌&&◌, ltb, ◌==◌, if◌then◌else◌, length, take,
}
use go_mongo_sync.Prelude.Bytes.{Bytes}
use go_mongo_sync.Prelude.Result.{Result, ok, err, ◌>>=◌}
use go_mongo_sync.Wal.Segment.{Entry, SegmentRead, read_segment, record_type_data, status_pending}
use go_mongo_sync.Wal.Log.{WalError, create_failed, read_failed, Wal, Segment, new_segment}

-- The largest id, and how many entries there are and are pending.
pub record Scan : Type 0 where
  pub max_entry_id : ℕ
  pub total_entries : ℕ
  pub pending_entries : ℕ

unfoldable pub scan_entry : Entry → Scan → Scan
scan_entry e s = record {
  max_entry_id = if ltb s.max_entry_id e.entry_id then e.entry_id else s.max_entry_id;
  total_entries = s.total_entries + 1;
  pending_entries = if e.status == status_pending then s.pending_entries + 1 else s.pending_entries;
}

unfoldable pub scan_entries : List Entry → Scan → Scan
scan_entries [] s = s
scan_entries (e ∷ es) s = scan_entries es (scan_entry e s)

unfoldable pub is_pending : Entry → Bool
is_pending e = e.record_type == record_type_data && e.status == status_pending

unfoldable pub pending_of : List Entry → List Entry
pending_of [] = []
pending_of (e ∷ es) = if is_pending e then e ∷ pending_of es else pending_of es

abbrev init_of : Bytes → List Bytes → List Bytes
init_of f [] = []
init_of f (g ∷ gs) = f ∷ init_of g gs

abbrev last_of : Bytes → List Bytes → Bytes
last_of f [] = f
last_of f (g ∷ gs) = last_of g gs

-- What becomes of a file in a crash: the name of a new one may be lost, as the code makes no fsync of
-- the directory, and a file whose fsync failed may hold other bytes.
pub data Fate : Type 0 where
  kept lost : Fate
  other : Bytes → Fate

abbrev pub left_of : Fate → Bytes → List Bytes → List Bytes
left_of kept file files = file ∷ files
left_of lost file files = files
left_of (other bytes) file files = bytes ∷ files

unfoldable pub after_crash : (ℕ → Fate) → ℕ → List Bytes → List Bytes
after_crash fate n [] = []
after_crash fate n (file ∷ files) = left_of (fate n) file (after_crash fate (n + 1) files)

-- The files of a log with `k` bytes of what no fsync has confirmed.
abbrev pub files_of : ℕ → Wal → List Bytes
files_of k w = w.older ++ ((w.active_segment.synced ++ take k w.active_segment.unsynced) ∷ [])

-- What a crash leaves of a log, by the fates of its files.
unfoldable pub crash : (ℕ → Fate) → ℕ → Wal → List Bytes
crash fate k w = after_crash fate 0 (files_of k w)

-- A crash that loses no file and damages none.
abbrev pub AllKept : (ℕ → Fate) → Type 0
AllKept fate = (n : ℕ) → fate n ≡ kept

after_crash-AllKept :
    (fate : ℕ → Fate) (n : ℕ) (files : List Bytes) → AllKept fate → after_crash fate n files ≡ files
unfolding after_crash
after_crash-AllKept fate n [] h = refl
after_crash-AllKept fate n (file ∷ files) h =
    rw (h n) (ap (file ∷◌) (after_crash-AllKept fate (n + 1) files h))

pub crash-AllKept :
    (fate : ℕ → Fate) (k : ℕ) (w : Wal) → AllKept fate → crash fate k w ≡ files_of k w
unfolding crash
crash-AllKept fate k w h = after_crash-AllKept fate 0 (files_of k w) h

abbrev start : List Bytes → Segment → ℕ → ℕ → Scan → Wal
start older active num next s = record {
  older = older;
  active_segment = active;
  segment_num = num;
  next_entry_id = next;
  commit_queue = [];
  pending_commits = [];
  answers = [];
  stats = record {
    total_entries = s.total_entries;
    pending_entries = s.pending_entries;
    total_segments = length older + 1;
    newest_entry = s.max_entry_id;
  };
  closed = false;
  worker_runs = true;
}

abbrev pub no_entries : Scan
no_entries = record { max_entry_id = 0; total_entries = 0; pending_entries = 0 }

module _ (crc32c : Bytes → ℕ) where
  -- `ReadSegment`, with a round for each byte of the file and one more.
  unfoldable pub read_file : Bytes → Option SegmentRead
  read_file file = read_segment crc32c (length file + 1) file

  -- The entries of a file, or the error of reading it.
  abbrev pub entries_of : Option SegmentRead → Result WalError (List Entry)
  entries_of none = ok []
  entries_of (some (es, none)) = ok es
  entries_of (some (es, some error)) = err (read_failed error)

  unfoldable pub scan_files : List Bytes → Scan → Result WalError Scan
  scan_files [] s = ok s
  scan_files (f ∷ fs) s = do es ← entries_of (read_file f); scan_files fs (scan_entries es s)

  -- `recover`, and what `New` makes of it.
  unfoldable pub recover : ℕ → Bool → List Bytes → Result WalError Wal
  recover last_num opens [] =
      if opens then ok (start [] (new_segment 0 []) 0 1 no_entries) else err create_failed
  recover last_num opens (f ∷ fs) = do
    s ← scan_files (f ∷ fs) no_entries
    if opens
        then ok (
            start (init_of f fs) (new_segment last_num (last_of f fs)) last_num
              ((s.max_entry_id + 1) % 2 ^ 64) s)
        else err create_failed

  -- `GetPendingEntries`.
  unfoldable pub get_pending_entries : List Bytes → Result WalError (List Entry)
  get_pending_entries [] = ok []
  get_pending_entries (f ∷ fs) = do
    es ← entries_of (read_file f)
    rest ← get_pending_entries fs
    ok (pending_of es ++ rest)
