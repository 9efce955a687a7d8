-- ===== src/Wal/Segment.antt =====
-- pkg/wal/types.go and segment.go: the entries of the write-ahead log and their form in a segment
-- file. A string and a `[]byte` are byte lists; a timestamp is the bit pattern of its int64, which is
-- what the file holds. A file is the list of its bytes, and a `bufio.Reader` is what is left of it.
-- The checksum CRC-32C of the standard library is a parameter.
pub mod RoundTrip
pub mod Torn
use go_mongo_sync.Prelude.{
  ℕ, zero, suc, ◌%◌, ◌^◌, Option, none, some, List, [], ◌∷◌, ◌++◌, ltb, ◌==◌, if◌then◌else◌, length,
  take, drop, get_or,
}
use go_mongo_sync.Prelude.Bytes.{Bytes, le_bytes, le_nat, slice}
use go_mongo_sync.Prelude.Result.{Result, ok, err, ◌>>=◌}

-- `RecordType` and `EntryStatus` are bytes, and a file may hold any.
abbrev pub record_type_data : ℕ
record_type_data = 0x01

abbrev pub record_type_applied : ℕ
record_type_applied = 0x02

abbrev pub status_pending : ℕ
status_pending = 0x00

abbrev pub status_applied : ℕ
status_applied = 0x01

pub record Entry : Type 0 where
  pub entry_id : ℕ
  pub timestamp : ℕ
  pub record_type : ℕ
  pub status : ℕ
  pub database : Bytes
  pub collection : Bytes
  pub documents : Bytes
  pub crc32 : ℕ

pub data ReadError : Type 0 where
  eof unexpected_eof corrupted_entry : ReadError

-- `io.ReadFull` into a buffer of `n` bytes: what it read, and what is left.
unfoldable pub read_full : ℕ → Bytes → Result ReadError (Bytes × Bytes)
read_full n file =
    if ltb (length file) n
    then err (if length file == 0 then eof else unexpected_eof)
    else ok (take n file, drop n file)

-- A length of `width` bytes and as many bytes as it says.
unfoldable pub read_sized : ℕ → Bytes → Result ReadError (Bytes × Bytes × Bytes)
read_sized width file = do
  (size, file') ← read_full width file
  (value, file'') ← read_full (le_nat size) file'
  ok (size, value, file'')

unfoldable pub entry_header : Entry → Bytes
entry_header e =
    le_bytes 8 e.entry_id ++ (le_bytes 8 e.timestamp ++ (e.record_type ∷ e.status ∷ []))

-- The bytes of an entry behind its checksum.
unfoldable pub entry_payload : Entry → Bytes
unfolding entry_header
entry_payload e =
    entry_header e
    ++ (le_bytes 2 (length e.database % 2 ^ 16)
        ++ (e.database
            ++ (le_bytes 2 (length e.collection % 2 ^ 16)
                ++ (e.collection ++ (le_bytes 4 (length e.documents % 2 ^ 32) ++ e.documents)))))

-- The entry that a header and the three values give.
abbrev pub entry_of : Bytes → Bytes → Bytes → Bytes → Entry
entry_of header database collection documents = record {
  entry_id = le_nat (slice 0 8 header);
  timestamp = le_nat (slice 8 16 header);
  record_type = get_or header 16 0;
  status = get_or header 17 0;
  database = database;
  collection = collection;
  documents = documents;
  crc32 = 0;
}

-- What `ReadSegment` returns: the entries read, and an error but for the end of the file.
abbrev pub SegmentRead : Type 0
SegmentRead = List Entry × Option ReadError

abbrev pub cons_entry : Entry → Option SegmentRead → Option SegmentRead
cons_entry e none = none
cons_entry e (some (es, error)) = some (e ∷ es, error)

abbrev pub end_of_read : ReadError → SegmentRead
end_of_read eof = ([], none)
end_of_read unexpected_eof = ([], some unexpected_eof)
end_of_read corrupted_entry = ([], some corrupted_entry)

module _ (crc32c : Bytes → ℕ) where
  unfoldable pub serialize_entry : Entry → Bytes
  unfolding entry_payload
  serialize_entry e = le_bytes 4 (crc32c (entry_payload e)) ++ entry_payload e

  -- The contents of a segment to which `Append` wrote the entries of a list.
  unfoldable pub serialized : List Entry → Bytes
  serialized [] = []
  serialized (e ∷ es) = serialize_entry e ++ serialized es

  unfoldable pub read_entry : Bytes → Result ReadError (Entry × Bytes)
  read_entry file = do
    (crc_bytes, file1) ← read_full 4 file
    (header, file2) ← read_full 18 file1
    (db_len, database, file3) ← read_sized 2 file2
    (coll_len, collection, file4) ← read_sized 2 file3
    (docs_len, documents, file5) ← read_sized 4 file4
    let payload =
        header ++ (db_len ++ (database ++ (coll_len ++ (collection ++ (docs_len ++ documents)))))
    if crc32c payload == le_nat crc_bytes
        then ok (entry_of header database collection documents, file5)
        else err corrupted_entry

  -- The loop of `ReadSegment`; `none` is fuel that ran out.
  unfoldable pub read_segment : ℕ → Bytes → Option SegmentRead
  read_segment zero file = none
  read_segment (suc fuel) file = elim (read_entry file) [
    | ok (e, rest) ↦ cons_entry e (read_segment fuel rest)
    | err error ↦ some (end_of_read error)
  ]
