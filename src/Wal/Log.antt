-- ===== src/Wal/Log.antt =====
-- pkg/wal/wal.go and the writing half of segment.go: the state of the log, and writing a row of
-- entries to its segments, with rotation. A file is its bytes. Of the active segment `synced` is
-- what an fsync has confirmed and `unsynced` what was written since, in the buffer of
-- `bufio.Writer` or in the kernel: a crash keeps any prefix of it. After an fsync that fails a segment
-- is in doubt: a later one may succeed without the bytes of the first, so it confirms nothing. How each call of the operating system ends is an argument. The directory's
-- files are a list in the order of their names, and no file of a later number stands in it.
-- `activeSegment` is not nil once `New` has returned. A result that is sent on a channel of a
-- request is an item of `answers`; timers and log output are left out.
pub mod Stores
pub mod Requests
use go_mongo_sync.Prelude.{
  ℕ, zero, suc, ◌+◌, ◌*◌, ◌%◌, ◌^◌, Bool, true, false, Option, none, some, List, [], ◌∷◌, ◌++◌,
  ◌&&◌, map, max, ltb, leb, ◌==◌, if◌then◌else◌, length, take,
}
use go_mongo_sync.Prelude.Bytes.{Bytes}
use go_mongo_sync.Wal.Segment.{
  Entry, ReadError, serialize_entry, record_type_data, record_type_applied, status_pending,
  status_applied,
}

abbrev pub max_segment_size : ℕ
max_segment_size = 64 * 1024 * 1024

abbrev pub group_commit_max_entries : ℕ
group_commit_max_entries = 100

pub data WalError : Type 0 where
  wal_closed queue_full write_failed flush_failed fsync_failed close_failed create_failed : WalError
  read_failed : ReadError → WalError

pub record Segment : Type 0 where
  pub segment_num : ℕ
  pub synced : Bytes
  pub unsynced : Bytes
  pub size : ℕ
  pub closed : Bool
  -- an fsync of it has failed
  pub in_doubt : Bool

-- `NewSegment` on a file of some contents.
unfoldable pub new_segment : ℕ → Bytes → Segment
new_segment num file = record {
  segment_num = num;
  synced = file;
  unsynced = [];
  size = length file;
  closed = false;
  in_doubt = false;
}

-- How a write ends: whole, or with an error after some bytes of it.
pub data Write : Type 0 where
  whole : Write
  broken : ℕ → Write

-- How the flush of the buffer and the fsync behind it end.
pub data Flush : Type 0 where
  flushed flush_error fsync_error : Flush

-- How the calls for one request end.
pub record Outcome : Type 0 where
  pub close : Flush
  pub creates : Bool
  pub write : Write

abbrev pub after_flush : Flush → Segment → Option WalError × Segment
after_flush flushed s =
    (none, if s.in_doubt then s else record s { synced = s.synced ++ s.unsynced; unsynced = [] })
after_flush flush_error s = (some flush_failed, s)
after_flush fsync_error s = (some fsync_failed, record s { in_doubt = true })

unfoldable pub sync : Flush → Segment → Option WalError × Segment
sync f s = if s.closed then (some wal_closed, s) else after_flush f s

-- `Segment.Close`.
unfoldable pub close_segment : Flush → Segment → Option WalError × Segment
close_segment f s = if s.closed then (none, s) else after_flush f (record s { closed = true })

pub record Stats : Type 0 where
  pub total_entries : ℕ
  pub pending_entries : ℕ
  pub total_segments : ℕ
  pub newest_entry : ℕ

pub record Wal : Type 0 where
  -- the files before the active segment's
  pub older : List Bytes
  pub active_segment : Segment
  pub segment_num : ℕ
  pub next_entry_id : ℕ
  pub commit_queue : List Entry
  pub pending_commits : List Entry
  pub answers : List (ℕ × Option WalError)
  pub stats : Stats
  pub closed : Bool
  -- `groupCommitWorker` has not returned
  pub worker_runs : Bool

abbrev after_close : Bool → Wal → Option WalError × Segment → Option WalError × Wal
after_close creates w (some e, s) = (some close_failed, record w { active_segment = s })
after_close creates w (none, s) =
    if creates
    then (
      none,
      record w {
        older = w.older ++ (s.synced ∷ []);
        active_segment = new_segment (w.segment_num + 1) [];
        segment_num = w.segment_num + 1;
        stats = record w.stats { total_segments = w.stats.total_segments + 1 };
      },
    )
    else (some create_failed, record w { active_segment = s; segment_num = w.segment_num + 1 })

unfoldable pub rotate_segment : Outcome → Wal → Option WalError × Wal
rotate_segment o w = after_close o.creates w (close_segment o.close w.active_segment)

-- The rotation before a request is written, where one is needed.
unfoldable pub make_room : Outcome → Wal → Option WalError × Wal
make_room o w = if leb max_segment_size w.active_segment.size then rotate_segment o w else (none, w)

module _ (crc32c : Bytes → ℕ) where
  abbrev after_write : Write → Bytes → Segment → Option WalError × Segment
  after_write whole bytes s =
      (none, record s { unsynced = s.unsynced ++ bytes; size = s.size + length bytes })
  after_write (broken n) bytes s =
      (some write_failed, record s { unsynced = s.unsynced ++ take n bytes })

  -- `Segment.Append`.
  unfoldable pub append_entry : Write → Entry → Segment → Option WalError × Segment
  append_entry o e s =
      if s.closed then (some wal_closed, s) else after_write o (serialize_entry crc32c e) s

  abbrev with_segment : Wal → Option WalError × Segment → Option WalError × Wal
  with_segment w (error, s) = (error, record w { active_segment = s })

  abbrev then_append : Outcome → Entry → Option WalError × Wal → Option WalError × Wal
  then_append o e (some error, w) = (some error, w)
  then_append o e (none, w) = with_segment w (append_entry o.write e w.active_segment)

  -- The body of the loop of `flushPendingCommits`.
  unfoldable pub write_request : Outcome → Entry → Wal → Option WalError × Wal
  write_request o e w = then_append o e (make_room o w)

  -- The loop, which stops at the first error. The outcomes are by the number of the request.
  unfoldable pub write_requests : (ℕ → Outcome) → ℕ → List Entry → Wal → Option WalError × Wal
  write_requests o i [] w = (none, w)
  write_requests o i (e ∷ es) w =
      let (error, w') = write_request (o i) e w in
      let rest = write_requests o (i + 1) es w' in
      elim error [ some error' ↦ (some error', w') | none ↦ rest ]
