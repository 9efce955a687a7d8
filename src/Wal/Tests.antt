-- ===== src/Wal/Tests.antt =====
-- The inputs of the runs of the write-ahead log.
mod Segments
mod Logs
use go_mongo_sync.Prelude.{
  ℕ, zero, suc, ◌+◌, ◌-◌, ◌%◌, ◌^◌, ◌≤◌, ◌<◌, ◌≡◌, ◌≢◌, refl, Bool, true, false, none, some, List,
  [], ◌∷◌, ◌++◌, map, length, take, flatten, All, arith, append-nil,
}
use go_mongo_sync.Prelude.Bytes.{Bytes}
use go_mongo_sync.Prelude.Result.{ok, err}
use go_mongo_sync.Wal.Segment.{
  Entry, unexpected_eof, end_of_read, entry_header, entry_payload, serialize_entry, serialized,
  read_segment,
}
use go_mongo_sync.Wal.Segment.RoundTrip.{Fits, read_segment-serialized}
use go_mongo_sync.Wal.Segment.Torn.{cut_error, field_lengths, read_segment-torn}
use go_mongo_sync.Wal.Log.{
  WalError, fsync_failed, read_failed, Segment, Wal, Outcome, Flush, flushed, fsync_error, whole,
  sync, append_entry, make_room, write_request, write_requests,
}
use go_mongo_sync.Wal.Log.Stores.{Stores}
use go_mongo_sync.Wal.Commit.{
  commit, flush_pending_commits, marker, submit, mark_applied, worker_round, on_request, on_timer,
  on_close,
}
use go_mongo_sync.Wal.Commit.Survival.{answered, with_pending, committed_survives}
use go_mongo_sync.Wal.Commit.Marks.{IsIdle, marked}
use go_mongo_sync.Wal.Commit.Shutdown.{
  Event, appends, closes_files, handle_all, queued_never_answered,
}
use go_mongo_sync.Wal.Recovery.{crash, pending_of, get_pending_entries, recover}
use go_mongo_sync.Wal.Recovery.Restart.{Restarted, recover-Restarted}
use go_mongo_sync.Wal.Recovery.Torn.{recover-crash}
use go_mongo_sync.Wal.Applier.{Applier, process_entry, recover_pending_entries}
use go_mongo_sync.Wal.Applier.Replay.{applied_entry_replayed}

abbrev pub sum_bytes : Bytes → ℕ
sum_bytes [] = 0
sum_bytes (b ∷ bs) = b + sum_bytes bs

-- A checksum in 32 bits.
abbrev pub crc : Bytes → ℕ
crc xs = sum_bytes xs % 256 ^ 4

pub crc-lt : (xs : Bytes) → crc xs < 256 ^ 4
crc-lt xs = omega arith

-- An insert of five bytes into "d.c".
abbrev pub insert : ℕ → Entry
insert id = record {
  entry_id = id;
  timestamp = 77;
  record_type = 1;
  status = 0;
  database = 100 ∷ [];
  collection = 99 ∷ [];
  documents = 5 ∷ 0 ∷ 0 ∷ 0 ∷ 0 ∷ [];
  crc32 = 0;
}

pub insert-Fits : (id : ℕ) → id < 256 ^ 8 → Fits (insert id)
insert-Fits id h = record {
  entry_id_fits = h;
  timestamp_fits = omega arith;
  database_fits = omega arith;
  collection_fits = omega arith;
  documents_fits = omega arith;
  no_crc32 = refl;
}

pub two-Fits : All Fits (insert 2 ∷ insert 3 ∷ [])
two-Fits = (insert-Fits 2 (omega arith), (insert-Fits 3 (omega arith), tt))

pub insert-length : 7 < length (serialize_entry crc (insert 4))
unfolding serialize_entry entry_payload entry_header
insert-length = omega arith

abbrev pub segment : Segment
segment = record {
  segment_num = 0;
  synced = serialized crc (insert 2 ∷ []);
  unsynced = [];
  size = 37;
  closed = false;
  in_doubt = false;
}

-- A log that holds one entry, at rest.
abbrev pub idle : Wal
idle = record {
  older = [];
  active_segment = segment;
  segment_num = 0;
  next_entry_id = 2;
  commit_queue = [];
  pending_commits = [];
  answers = [];
  stats = record { total_entries = 1; pending_entries = 1; total_segments = 1; newest_entry = 2 };
  closed = false;
  worker_runs = true;
}

pub idle-Stores : Stores crc idle (insert 2 ∷ [])
idle-Stores = record {
  older_entries = [];
  active_entries = insert 2 ∷ [];
  older_files = refl;
  active_file = append-nil (serialized crc (insert 2 ∷ []));
  together = refl;
  is_open = refl;
  is_trusted = refl;
}

abbrev pub good : ℕ → Outcome
good i = record { close = flushed; creates = true; write = whole }

-- The log with an entry that waits for its commit.
abbrev pub busy : Wal
busy = record idle { pending_commits = insert 3 ∷ [] }

pub busy-Stores : Stores crc busy (insert 2 ∷ [])
busy-Stores = record {
  older_entries = [];
  active_entries = insert 2 ∷ [];
  older_files = refl;
  active_file = append-nil (serialized crc (insert 2 ∷ []));
  together = refl;
  is_open = refl;
  is_trusted = refl;
}

pub three-Fits : All Fits (((insert 2 ∷ []) ++ (insert 3 ∷ [])) ++ (insert 4 ∷ []))
three-Fits =
    (insert-Fits 2 (omega arith), (insert-Fits 3 (omega arith), (insert-Fits 4 (omega arith), tt)))

pub idle-IsIdle : IsIdle idle
idle-IsIdle = record { is_open = refl; runs = refl; queue_empty = refl; none_pending = refl }

abbrev pub applier : Applier
applier = record {
  work_queue = [];
  applied_count = 0;
  error_count = 0;
  workers = 4;
  closed = false;
}

-- A closed log with one request taken and one in the queue.
abbrev pub closing : Wal
closing = record busy { commit_queue = insert 5 ∷ []; closed = true }

-- A log with an entry whose write has not been confirmed.
abbrev pub unconfirmed : Wal
unconfirmed = record idle {
  active_segment = record segment { unsynced = serialize_entry crc (insert 4) };
}
