-- ===== src/Wal/Tests/Segments.antt =====
-- Runs of reading segments.
use go_mongo_sync.Prelude.{◌≡◌, none, some, [], ◌∷◌, arith}
use go_mongo_sync.Wal.Segment.{serialized, read_segment}
use go_mongo_sync.Wal.Segment.RoundTrip.{read_segment-serialized}
use go_mongo_sync.Wal.Tests.{crc, crc-lt, insert, two-Fits}

read_segment-serialized_example :
    read_segment crc 3 (serialized crc (insert 2 ∷ insert 3 ∷ []))
    ≡ some (insert 2 ∷ insert 3 ∷ [], none)
read_segment-serialized_example =
    read_segment-serialized crc crc-lt (insert 2 ∷ insert 3 ∷ []) 3 two-Fits (omega arith)
